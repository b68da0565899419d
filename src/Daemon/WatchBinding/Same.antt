-- ===== src/Daemon/WatchBinding/Same.antt =====
-- The comparisons of crates/hallouminate-daemon/src/watch/registry.rs hold of a thing and itself.
use hallouminate.Common.{◌≡◌, refl, Bool, true, false, Option, none, some, List, [], ◌∷◌}
use hallouminate.Daemon.WatchBinding.{
  CorpusConfig, WatchRoot, Config, Binding, equivalent, same_bool, same_all, same_option,
  same_corpus, same_root, cfg_binding_differs,
}
use hallouminate.Text.{Text, equal}
use hallouminate.Text.Equal.{equal_self}

same_bool_self : (b : Bool) → same_bool b b ≡ true
same_bool_self true = refl
same_bool_self false = refl

same_all_self {ℓ} :
    {A : Type ℓ} (same : A → A → Bool) (self : (x : A) → same x x ≡ true) (xs : List A)
    → same_all same xs xs ≡ true
unfolding same_all
same_all_self same self [] = refl
same_all_self same self (x ∷ xs) = rw (self x, same_all_self same self xs) refl

same_option_self : (o : Option Text) → same_option equal o o ≡ true
unfolding same_option
same_option_self none = refl
same_option_self (some x) = equal_self x

same_corpus_self : (c : CorpusConfig) → same_corpus c c ≡ true
unfolding same_corpus
same_corpus_self c =
    rw
      (
        equal_self c.name,
        same_all_self equal equal_self c.paths,
        same_all_self equal equal_self c.globs,
        same_all_self equal equal_self c.exclude,
        same_bool_self c.global,
      )
      refl

same_root_self : (r : WatchRoot) → same_root r r ≡ true
unfolding same_root
same_root_self r =
    rw
      (
        equal_self r.watched,
        equal_self r.canonical_watched,
        same_corpus_self r.corpus,
        same_option_self r.canonical_file_root,
        same_bool_self r.is_recursive,
      )
      refl

cfg_binding_differs_self : (c : Config) → cfg_binding_differs c c ≡ false
unfolding cfg_binding_differs
cfg_binding_differs_self c =
    rw
      (
        equal_self c.ground_dir,
        equal_self c.model,
        same_bool_self c.quantized,
        same_bool_self c.enabled,
      )
      refl

pub equivalent_self : (b : Binding) → equivalent b b ≡ true
unfolding equivalent
equivalent_self b =
    rw
      (
        same_corpus_self b.corpus,
        same_all_self same_root same_root_self b.roots,
        cfg_binding_differs_self b.cfg,
      )
      refl
