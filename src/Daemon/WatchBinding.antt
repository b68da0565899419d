-- ===== src/Daemon/WatchBinding.antt =====
-- What a watcher registration is bound to, of crates/hallouminate-daemon/src/watch/registry.rs: the
-- corpus, its watched roots (watch/mod.rs), and the settings of storage and embeddings.
pub mod Same
use hallouminate.Common.{Bool, true, false, ◌&&◌, ◌||◌, not, Option, none, some, List, [], ◌∷◌}
use hallouminate.Indexer.Types.{CorpusKey}
use hallouminate.Text.{Text, equal}

pub record CorpusConfig : Type 0 where
  pub name : Text
  pub paths : List Text
  pub globs : List Text
  pub exclude : List Text
  pub global : Bool

pub record WatchRoot : Type 0 where
  pub watched : Text
  pub canonical_watched : Text
  pub corpus : CorpusConfig
  pub canonical_file_root : Option Text
  pub is_recursive : Bool

-- The fields of the configuration that a binding depends on.
pub record Config : Type 0 where
  pub ground_dir : Text
  pub model : Text
  pub quantized : Bool
  pub enabled : Bool

abbrev pub same_bool : Bool → Bool → Bool
same_bool true b = b
same_bool false b = not b

unfoldable pub same_all {ℓ} : {A : Type ℓ} → (A → A → Bool) → List A → List A → Bool
same_all same [] [] = true
same_all same (x ∷ xs) (y ∷ ys) = same x y && same_all same xs ys
same_all same xs ys = false

unfoldable pub same_option {ℓ} : {A : Type ℓ} → (A → A → Bool) → Option A → Option A → Bool
same_option same none none = true
same_option same (some x) (some y) = same x y
same_option same x y = false

-- `==` on corpora and roots
unfoldable pub same_corpus : CorpusConfig → CorpusConfig → Bool
unfolding same_all
same_corpus a b =
    equal a.name b.name
    && same_all equal a.paths b.paths
    && same_all equal a.globs b.globs
    && same_all equal a.exclude b.exclude
    && same_bool a.global b.global

unfoldable pub same_root : WatchRoot → WatchRoot → Bool
unfolding same_corpus same_option
same_root a b =
    equal a.watched b.watched
    && equal a.canonical_watched b.canonical_watched
    && same_corpus a.corpus b.corpus
    && same_option equal a.canonical_file_root b.canonical_file_root
    && same_bool a.is_recursive b.is_recursive

unfoldable pub cfg_binding_differs : Config → Config → Bool
cfg_binding_differs left right =
    not (equal left.ground_dir right.ground_dir)
    || not (equal left.model right.model)
    || not (same_bool left.quantized right.quantized)
    || not (same_bool left.enabled right.enabled)

pub record Binding : Type 0 where
  pub corpus : CorpusConfig
  pub cfg : Config
  pub roots : List WatchRoot

-- `registration_equivalent`
unfoldable pub equivalent : Binding → Binding → Bool
unfolding same_corpus same_root same_all cfg_binding_differs
equivalent a b =
    same_corpus a.corpus b.corpus
    && same_all same_root a.roots b.roots
    && not (cfg_binding_differs a.cfg b.cfg)

abbrev pub root_of : WatchRoot → Text
root_of root = elim root.canonical_file_root [ none ↦ root.canonical_watched | some r ↦ r ]

unfoldable pub first_root : List WatchRoot → List Text → Text
first_root (root ∷ roots) paths = root_of root
first_root [] (path ∷ paths) = path
first_root [] [] = []

unfoldable pub corpus_key : CorpusConfig → List WatchRoot → CorpusKey
unfolding first_root
corpus_key corpus roots = record {
  name = corpus.name;
  canonical_root = first_root roots corpus.paths;
}
