-- ===== src/Storage/Invariant/Rules.antt =====
-- Rules that carry an invariant through the steps of the storage goroutine.
use go_tfhfs.Common.{
  ℕ, ◌≡◌, refl, Bool, true, false, Option, none, some, List, Bytes, Outcome, ok, panic,
  if◌then◌else◌,
}
use go_tfhfs.Storage.Types.{
  Counters, OldNew, Storage, M, pure, fail, ◌>>=◌, lift, when, case_nil, get, get_block,
  set_dirty_storage_refs, set_backend, set_names, set_counters,
}
use go_tfhfs.Storage.Invariant.{Ends, Keeps, IsConsistent}

module _ {B : Type 0} {P : Storage B → Type 0} where
  pub Keeps-pure : {A : Type 0} (a : A) → Keeps P (pure a)
  Keeps-pure a = record { run = λ s h. h }

  pub Ends-bind :
      {A C : Type 0} (o : Outcome (A × Storage B)) (f : A → M B C)
      → Ends P o
      → ((a : A) → Keeps P (f a))
      → Ends P (elim o [ ok (a, s') ↦ f a s' | panic ↦ panic ])
  Ends-bind (ok (a, s)) f h k = (k a).run s h
  Ends-bind panic f h k = tt

  pub Keeps-bind :
      {A C : Type 0} {m : M B A} {f : A → M B C}
      → Keeps P m
      → ((a : A) → Keeps P (f a))
      → Keeps P (m >>= f)
  Keeps-bind {m = m} {f = f} h k = record { run = λ s p. Ends-bind (m s) f (h.run s p) k }

  pub Keeps-if :
      {A : Type 0} (c : Bool) {m n : M B A} → Keeps P m → Keeps P n → Keeps P (if c then m else n)
  Keeps-if true h k = h
  Keeps-if false h k = k

  pub Keeps-when : (c : Bool) {m : M B (Unit {0})} → Keeps P m → Keeps P (when c m)
  Keeps-when true h = record { run = λ s p. h.run s p }
  Keeps-when false h = record { run = λ s p. p }

  pub Keeps-case_nil :
      {A C : Type 0} (o : Option A) {m : M B C} {f : A → M B C}
      → Keeps P m
      → ((a : A) → Keeps P (f a))
      → Keeps P (case_nil o m f)
  Keeps-case_nil none h k = h
  Keeps-case_nil (some a) h k = k a

  pub Keeps-fail : {A : Type 0} → Keeps P (fail {A = A})
  Keeps-fail = record { run = λ s p. tt }

  pub Keeps-get : Keeps P get
  Keeps-get = record { run = λ s p. p }

  pub Keeps-get_block : (p : ℕ) → Keeps P (get_block p)
  Keeps-get_block p = record { run = λ s h. h }

  pub Keeps-lift : {A : Type 0} (o : Outcome A) → Keeps P (lift o)
  Keeps-lift (ok a) = record { run = λ s h. h }
  Keeps-lift panic = record { run = λ s h. tt }

module _ {B : Type 0} {n : ℕ} where
  -- What the invariant does not read may change.
  frame :
      (s t : Storage B)
      → s.next ≡ t.next
      → s.heap ≡ t.heap
      → s.blocks ≡ t.blocks
      → s.dirty_blocks ≡ t.dirty_blocks
      → IsConsistent n s
      → IsConsistent n t
  frame s t a b c d h = record {
    bound = rw (← a) h.bound;
    idle = rw (← a, ← d) h.idle;
    tracked = rw (← b, ← d) h.tracked;
    addressed = rw (← a, ← b, ← c) h.addressed;
  }

  pub Keeps-set_dirty_storage_refs :
      (ps : List ℕ) → Keeps {B = B} (IsConsistent n) (set_dirty_storage_refs ps)
  Keeps-set_dirty_storage_refs ps = record {
    run = λ s h. frame s (record s { dirty_storage_ref_blocks = ps }) refl refl refl refl h;
  }

  pub Keeps-set_backend : (b : B) → Keeps {B = B} (IsConsistent n) (set_backend b)
  Keeps-set_backend b = record {
    run = λ s h. frame s (record s { backend = b }) refl refl refl refl h;
  }

  pub Keeps-set_names : (m : List (Bytes × OldNew)) → Keeps {B = B} (IsConsistent n) (set_names m)
  Keeps-set_names m = record { run = λ s h. frame s (record s { names = m }) refl refl refl refl h }

  pub Keeps-set_counters : (c : Counters) → Keeps {B = B} (IsConsistent n) (set_counters c)
  Keeps-set_counters c = record {
    run = λ s h. frame s (record s { counters = c }) refl refl refl refl h;
  }

pub ruleset steps = (
  Keeps-pure, Keeps-bind, Keeps-if, Keeps-when, Keeps-case_nil, Keeps-fail, Keeps-get,
  Keeps-get_block, Keeps-lift, Keeps-set_dirty_storage_refs, Keeps-set_backend, Keeps-set_names,
  Keeps-set_counters,
)
