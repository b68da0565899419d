-- ===== src/Indexer/Triples.antt =====
-- Reasoning on a pass of the indexer by what holds before a call, after it, and after an error.
use hallouminate.Common.{◌≡◌, refl, ◌∷◌, Bool, true, false, Option, none, some, if◌then◌else◌}
use hallouminate.Indexer.Run.{
  Log, Run, Outcome, done, stopped, Action, Event, acquired, released, failed, note, pure, raise,
  answer, after, tell, tally, release, held, with_lane, ◌>>=◌, ◌>>◌,
}
use hallouminate.Indexer.Stats.{ApplyStats}
use hallouminate.Indexer.Writer.{Error, Result, ok, err}

abbrev pub Raised : Type 1
Raised = Error → Run → Type 0

-- How a call ended: with a value where `Q` holds, or in an error where `E` does.
pub data Post {A : Type 0} (Q : A → Run → Type 0) (E : Raised) : Outcome A → Type 0 where
  ended : {a : A} {r : Run} → Q a r → Post Q E (done a r)
  raised : {e : Error} {r : Run} → E e r → Post Q E (stopped e r)

-- Begun where `I` holds, the action ends where `Q` holds, or raises where `E` does.
pub record Triple {A : Type 0} (Q : A → Run → Type 0) (E : Raised) (I : Run → Type 0) (m : Action A)
    : Type 0 where
  pub run : (r : Run) → I r → Post Q E (m r)

module _ {A B : Type 0} {Q : A → Run → Type 0} {R : B → Run → Type 0} {E : Raised} where
  after-Post :
      (o : Outcome A) (f : A → Action B)
      → Post Q E o
      → ((a : A) → Triple R E (Q a) (f a))
      → Post R E (after o f)
  unfolding after
  after-Post (done a r) f (ended h) k = (k a).run r h
  after-Post (stopped e r) f (raised h) k = raised h

  infixl 5 ◌then◌
  pub ◌then◌ :
      {I : Run → Type 0} {m : Action A} {f : A → Action B}
      → Triple Q E I m
      → ((a : A) → Triple R E (Q a) (f a))
      → Triple R E I (m >>= f)
  unfolding after
  ◌then◌ {I} {m} {f} h k = record { run = λ r i. after-Post (m r) f (h.run r i) k }

module _ {A : Type 0} {Q : A → Run → Type 0} {E : Raised} where
  pub pure-Triple : (I : Run → Type 0) (a : A) → ((r : Run) → I r → Q a r) → Triple Q E I (pure a)
  pure-Triple I a h = record { run = λ r i. ended (h r i) }

  -- What does not depend on the state may stand before the triple.
  pub given-Triple :
      {P : Type 0} {I : Run → Type 0} {m : Action A}
      → (P → Triple Q E I m)
      → Triple Q E (λ r. I r × P) m
  given-Triple h = record { run = λ r (i, p). (h p).run r i }

  pub answer-Triple :
      {I : Run → Type 0} (f : Log → Result A)
      → ((a : A) (r : Run) → f r.log ≡ ok a → I r → Q a r)
      → ((e : Error) (r : Run) → f r.log ≡ err e → I r → E e (note (failed e) r))
      → Triple Q E I (answer f)
  unfolding answer
  answer-Triple {I} f h k = record { run = λ r i. answered r i (f r.log) refl }
    where
      answered :
          (r : Run)
          → I r
          → (a : Result A) → f r.log ≡ a
          → Post Q E (elim a [ ok a ↦ done a r | err e ↦ raise e r ])
      answered r i (ok a) same = ended (h a r same i)
      answered r i (err e) same = raised (k e r same i)

  pub raise-Triple :
      {I : Run → Type 0} (e : Error)
      → ((r : Run) → I r → E e (note (failed e) r))
      → Triple Q E I (raise {A = A} e)
  raise-Triple e h = record { run = λ r i. raised (h r i) }

  pub option-Triple :
      {B : Type 0} {I : Run → Type 0} {n : Action A} {f : B → Action A} (o : Option B)
      → (o ≡ none → Triple Q E I n)
      → ((b : B) → Triple Q E I (f b))
      → Triple Q E I (elim o [ none ↦ n | some b ↦ f b ])
  option-Triple none h k = h refl
  option-Triple (some b) h k = k b

  pub if-Triple :
      {I : Run → Type 0} {m n : Action A} (b : Bool)
      → (b ≡ true → Triple Q E I m)
      → (b ≡ false → Triple Q E I n)
      → Triple Q E I (if b then m else n)
  if-Triple true h k = h refl
  if-Triple false h k = k refl

module _ {A : Type 0} {Q : A → Run → Type 0} {E E' : Raised} where
  release-Post :
      {Q' : A → Run → Type 0} (o : Outcome A)
      → Post Q' E' o
      → ((a : A) (r : Run) → Q' a r → Q a (note released r))
      → ((e : Error) (r : Run) → E' e r → E e (note released r))
      → Post Q E (release o)
  unfolding release
  release-Post (done a r) (ended h) k l = ended (k a r h)
  release-Post (stopped e r) (raised h) k l = raised (l e r h)

  -- In the scope of a guard `H` holds; dropping the guard turns its ends back.
  pub held-Triple :
      {I H : Run → Type 0} {Q' : A → Run → Type 0} {m : Action A}
      → ((r : Run) → I r → H (note acquired r))
      → Triple Q' E' H m
      → ((a : A) (r : Run) → Q' a r → Q a (note released r))
      → ((e : Error) (r : Run) → E' e r → E e (note released r))
      → Triple Q E I (held m)
  unfolding held
  held-Triple {I} {m = m} h t k l = record {
    run = λ r i. release-Post (m (note acquired r)) (t.run (note acquired r) (h r i)) k l;
  }

module _ {E : Raised} {I J : Run → Type 0} where
  pub tell-Triple : (e : Event) → ((r : Run) → I r → J (note e r)) → Triple (λ _. J) E I (tell e)
  unfolding tell
  tell-Triple e h = record { run = λ r i. ended (h r i) }

  pub tally-Triple :
      (f : ApplyStats → ApplyStats)
      → ((r : Run) → I r → J (record r { stats = f r.stats }))
      → Triple (λ _. J) E I (tally f)
  unfolding tally
  tally-Triple f h = record { run = λ r i. ended (h r i) }

module _ {A : Type 0} {Q : A → Run → Type 0} {E : Raised} {I : Run → Type 0} where
  -- A call that is logged before it is answered.
  pub call-Triple :
      (e : Event) (f : Log → Result A)
      → ((a : A) (r : Run) → f (e ∷ r.log) ≡ ok a → I r → Q a (note e r))
      → ((x : Error) (r : Run) → f (e ∷ r.log) ≡ err x → I r → E x (note (failed x) (note e r)))
      → Triple Q E I (tell e >> answer f)
  call-Triple e f h k =
      tell-Triple
        {J = λ r.
          ((a : A) → f r.log ≡ ok a → Q a r)
          × ((x : Error) → f r.log ≡ err x → E x (note (failed x) r))}
        e (λ r i. (λ a same. h a r same i, λ x same. k x r same i))
      then λ _. answer-Triple f (λ a r same q. q.0 a same) (λ x r same q. q.1 x same)

module _ {A : Type 0} {Q : A → Run → Type 0} {F : Raised} where
  pub weaken_before :
      {I J : Run → Type 0} {m : Action A}
      → ((r : Run) → J r → I r)
      → Triple Q F I m
      → Triple Q F J m
  weaken_before h t = record { run = λ r j. t.run r (h r j) }

module _ {A : Type 0} {Q : A → Run → Type 0} {E F : Raised} where
  weaken-Post : {o : Outcome A} → ((e : Error) (r : Run) → F e r → E e r) → Post Q F o → Post Q E o
  weaken-Post h (ended q) = ended q
  weaken-Post h (raised f) = raised (h _ _ f)

  weaken-Triple :
      {I : Run → Type 0} {m : Action A}
      → ((e : Error) (r : Run) → F e r → E e r)
      → Triple Q F I m
      → Triple Q E I m
  weaken-Triple h t = record { run = λ r i. weaken-Post h (t.run r i) }

-- The lane is given, or refused.
abbrev pub IsTaken : Option (Log → Result (Unit {0})) → Log → Type 0
IsTaken none log = ⊥
IsTaken (some acquire) log = acquire log ≡ ok tt

abbrev pub IsDenied : Error → Option (Log → Result (Unit {0})) → Log → Type 0
IsDenied e none log = ⊥
IsDenied e (some acquire) log = acquire log ≡ err e

module _ {E F : Raised} {I J : Run → Type 0} where
  -- The guard of the lane does not matter to what its events keep.
  pub with_lane-Triple :
      {m : Action (Unit {0})} (lane : Option (Log → Result (Unit {0})))
      → ((r : Run) → IsTaken lane r.log → I r → I (note acquired r))
      → ((r : Run) → J r → J (note released r))
      → ((e : Error) (r : Run) → IsDenied e lane r.log → I r → E e (note (failed e) r))
      → ((e : Error) (r : Run) → F e r → E e r)
      → ((e : Error) (r : Run) → F e r → E e (note released r))
      → Triple (λ _. J) F I m
      → Triple (λ _. J) E I (with_lane lane m)
  unfolding with_lane
  with_lane-Triple none taken dropped fails late dropped_late t = weaken-Triple late t
  with_lane-Triple (some acquire) taken dropped fails late dropped_late t =
      answer-Triple acquire (λ _ r same i. (same, i)) fails then λ _.
      held-Triple {I = λ r. (acquire r.log ≡ ok tt) × I r} (λ r (same, i). taken r same i) t
        (λ _. dropped) dropped_late
