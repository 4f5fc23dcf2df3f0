-- ===== src/Slots/Bounds.antt =====
-- The limits that a supplier keeps: src/jvm_slots.rs, core-bridge/rust/kt-bridge.
use temporal_kt_bridge.Base.{
  ℕ, ◌+◌, ◌-◌, ◌%◌, ◌^◌, ◌≤◌, ◌<◌, ◌≡◌, ◌≢◌, refl, sym, ap, ◌∙◌, subst, arith, List, ◌∷◌, length,
  get_elem?, All, All-get_elem?, get_elem?-replicate, some, Bool, true, false, if◌then◌else◌,
}
use temporal_kt_bridge.Slots.{
  new, update, of, sum, Permit, JvmSlots, Shared, supplier, drop_issued, drop_reserved, queue_of,
  grant, try_reserve_slot, begin_reserve, end_reserve, increment, decrement,
}
use temporal_kt_bridge.Slots.Admission.{
  IsGranted, try_reserve_slot-IsGranted, granted_same, refused_same,
}
use temporal_kt_bridge.Slots.System.{
  System, erase, Step, begins, leaves, grants, refuses, releases, uncounts, updates, others, Reach,
  here, next, start,
}
use temporal_kt_bridge.Slots.Permits.{
  same, held, held-erase, length-erase, All-erase, get_elem?-adjust, increment_word, decrement_word,
  of-raise, sum-raise, of-lower, sum-lower, raise-below,
}

-- The limits that the supplier is built with: the maximum is a 32-bit number, the kind one of four.
abbrev pub IsLimited : JvmSlots → Type 0
IsLimited j = (j.maximum < 2 ^ 32) × (j.kind < 4)

-- The permits that the gate still counts.
abbrev pub counted : System → ℕ
counted x = length x.permits + length x.releasing

-- What holds between two sections.
pub record Inv (j : JvmSlots) (x : System) : Type 0 where
  pub issued : (q : Bool) → of x.shared.1.issued q ≡ held q x.permits
  pub bounded : sum x.shared.1.issued ≤ j.maximum
  pub shared_out : j.sticky ≡ true → 2 ≤ j.maximum → (q : Bool) → of x.shared.1.issued q < j.maximum
  pub reserved : get_elem? x.shared.0.reserved j.kind ≡ some (counted x % 2 ^ 32)
  pub pending : get_elem? x.shared.0.pending j.kind ≡ some (x.waiting % 2 ^ 32)
  pub kinds : All (λ p. p.kind ≡ j.kind) x.permits
  pub leaving : All (λ p. p.kind ≡ j.kind) x.releasing

-- A grant under a waiting count that does not change.
grant-Inv :
    (j : JvmSlots) (x : System) (q : Bool) (now : ℕ)
    → IsLimited j
    → IsGranted j q now x.shared
    → Inv j x
    → Inv j (record x {
      shared = grant j q now x.shared;
      permits = record { queue = q; kind = j.kind } ∷ x.permits;
    })
unfolding grant
grant-Inv j x q now lim (below, kept, _) v = record {
  issued =
      λ r. omega (arith, v.issued r, of-raise x.shared.1.issued (omega (arith, below, lim.0)) q r);
  bounded = omega (arith, below, sum-raise x.shared.1.issued (omega (arith, below, lim.0)) q);
  shared_out = λ sticky two r.
      raise-below x.shared.1.issued j.maximum q r lim.0 below
        (λ none_other last. kept (sticky, none_other, last)) (v.shared_out sticky two r);
  reserved =
      get_elem?-adjust (increment 32) x.shared.0.reserved j.kind _ v.reserved
      ∙ ap some (increment_word (counted x) ∙ omega arith);
  pending = v.pending;
  kinds = (refl, v.kinds);
  leaving = v.leaving;
}

held-some : (ps : List Permit) (i : ℕ) (p : Permit) → get_elem? ps i ≡ some p → held p.queue ps ≢ 0
held-some ps i p at = held-of p.queue _ (held-erase p.queue ps i p at)
  where
    held-of : (q : Bool) {n : ℕ} (m : ℕ) → n ≡ (if same q q then 1 else 0) + m → n ≢ 0
    held-of false m e = omega (arith, e)
    held-of true m e = omega (arith, e)

drop-Inv :
    (j : JvmSlots) (x : System) (i : ℕ) (p : Permit)
    → IsLimited j
    → get_elem? x.permits i ≡ some p
    → Inv j x
    → Inv j (record x {
      shared = (x.shared.0, drop_issued p x.shared.1);
      permits = erase x.permits i;
      releasing = p ∷ x.releasing;
    })
unfolding drop_issued
drop-Inv j x i p lim at v =
    let small : sum x.shared.1.issued < 2 ^ 32 = omega (arith, v.bounded, lim.0) in
    let one : of x.shared.1.issued p.queue ≢ 0 =
      λ e. held-some x.permits i p at (sym (v.issued p.queue) ∙ e) in
    let fewer = length-erase x.permits i p at in
    record {
      issued = λ r. omega (
        arith,
        v.issued r,
        of-lower x.shared.1.issued small p.queue r one,
        held-erase r x.permits i p at,
      );
      bounded = omega (arith, v.bounded, sum-lower x.shared.1.issued small p.queue one);
      shared_out = λ sticky two r.
          omega (arith, v.shared_out sticky two r, of-lower x.shared.1.issued small p.queue r one);
      reserved = v.reserved ∙ ap some (omega (arith, fewer));
      pending = v.pending;
      kinds = All-erase (λ p. p.kind ≡ j.kind) x.permits i v.kinds;
      leaving = (All-get_elem? (λ p. p.kind ≡ j.kind) x.permits i v.kinds at, v.leaving);
    }

-- The second part of a release.
uncount-Inv :
    (j : JvmSlots) (x : System) (i : ℕ) (p : Permit)
    → get_elem? x.releasing i ≡ some p
    → Inv j x
    → Inv j (record x {
      shared = (drop_reserved p x.shared.0, x.shared.1);
      releasing = erase x.releasing i;
    })
unfolding drop_reserved
uncount-Inv j x i p at v =
    let mine : p.kind ≡ j.kind = All-get_elem? (λ p. p.kind ≡ j.kind) x.releasing i v.leaving at in
    let fewer = length-erase x.releasing i p at in
    record {
      issued = v.issued;
      bounded = v.bounded;
      shared_out = v.shared_out;
      reserved = rw mine (
          get_elem?-adjust (decrement 32) x.shared.0.reserved j.kind _ v.reserved
          ∙ ap some (decrement_word (counted x) (omega (arith, fewer)) ∙ omega (arith, fewer)));
      pending = v.pending;
      kinds = v.kinds;
      leaving = All-erase (λ p. p.kind ≡ j.kind) x.releasing i v.leaving;
    }

end-Inv :
    (j : JvmSlots) (x : System)
    → x.waiting ≢ 0
    → Inv j x
    → Inv j (record x { shared = (end_reserve j x.shared.0, x.shared.1); waiting = x.waiting - 1 })
unfolding end_reserve
end-Inv j x n v = record {
  issued = v.issued;
  bounded = v.bounded;
  shared_out = v.shared_out;
  reserved = v.reserved;
  pending =
      get_elem?-adjust (decrement 32) x.shared.0.pending j.kind _ v.pending
      ∙ ap some (decrement_word x.waiting n);
  kinds = v.kinds;
  leaving = v.leaving;
}

begin-Inv :
    (j : JvmSlots) (x : System)
    → Inv j x
    → Inv j
        (record x { shared = (begin_reserve j x.shared.0, x.shared.1); waiting = x.waiting + 1 })
unfolding begin_reserve
begin-Inv j x v = record {
  issued = v.issued;
  bounded = v.bounded;
  shared_out = v.shared_out;
  reserved = v.reserved;
  pending =
      get_elem?-adjust (increment 32) x.shared.0.pending j.kind _ v.pending
      ∙ ap some (increment_word x.waiting);
  kinds = v.kinds;
  leaving = v.leaving;
}

-- A slot that was granted, whoever asked for it.
given-Inv :
    (j : JvmSlots) (x : System) (is_sticky : Bool) (now : ℕ) (y : Shared) (p : Permit)
    → IsLimited j
    → try_reserve_slot j is_sticky now x.shared ≡ (y, some p)
    → Inv j x
    → Inv j (record x { shared = y; permits = p ∷ x.permits })
given-Inv j x is_sticky now y p lim h v =
    let (to, named) = granted_same j is_sticky now x.shared.0 x.shared.1 h in
    subst (λ (a : Shared × Permit). Inv j (record x { shared = a.0; permits = a.1 ∷ x.permits }))
      (λ i. (sym to i, sym named i))
      (grant-Inv j x (queue_of j is_sticky) now lim
        (try_reserve_slot-IsGranted j is_sticky now x.shared.0 x.shared.1 h) v)

Step-Inv : (j : JvmSlots) {x y : System} → IsLimited j → Step j x y → Inv j x → Inv j y
unfolding update
Step-Inv j {x} lim begins v = begin-Inv j x v
Step-Inv j {x} lim (leaves n) v = end-Inv j x n v
Step-Inv j {x} lim (grants is_sticky now y p h) v = given-Inv j x is_sticky now y p lim h v
Step-Inv j {x} lim (refuses is_sticky now y h) v =
    subst (λ a. Inv j (record x { shared = a }))
      (sym (refused_same j is_sticky now x.shared.0 x.shared.1 h)) v
Step-Inv j {x} lim (releases i p at) v = drop-Inv j x i p lim at v
Step-Inv j {x} lim (uncounts i p at) v = uncount-Inv j x i p at v
Step-Inv j {x} lim (updates allowed) v = record {
  issued = v.issued;
  bounded = v.bounded;
  shared_out = v.shared_out;
  reserved = v.reserved;
  pending = v.pending;
  kinds = v.kinds;
  leaving = v.leaving;
}
Step-Inv j {x} lim (others g same_reserved same_pending) v = record {
  issued = v.issued;
  bounded = v.bounded;
  shared_out = v.shared_out;
  reserved = same_reserved ∙ v.reserved;
  pending = same_pending ∙ v.pending;
  kinds = v.kinds;
  leaving = v.leaving;
}

pub Reach-Inv : (j : JvmSlots) {x y : System} → IsLimited j → Reach j x y → Inv j x → Inv j y
Reach-Inv j lim here v = v
Reach-Inv j lim (next r st) v = Step-Inv j lim st (Reach-Inv j lim r v)

pub start-Inv : (j : JvmSlots) (now : ℕ) → IsLimited j → j.maximum ≢ 0 → Inv j (start now)
unfolding supplier new
start-Inv j now lim n = record {
  issued = λ q. ground arith;
  bounded = omega arith;
  shared_out = λ sticky two q. ground arith;
  reserved = get_elem?-replicate 4 0 j.kind lim.1;
  pending = get_elem?-replicate 4 0 j.kind lim.1;
  kinds = tt;
  leaving = tt;
}
