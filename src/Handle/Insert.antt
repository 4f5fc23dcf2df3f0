-- ===== src/Handle/Insert.antt =====
-- Insertion into the handle table of src/handle.rs, of core-bridge/rust/kt-bridge.
use temporal_kt_bridge.Base.{
  ℕ, ◌+◌, ◌-◌, ◌^◌, ◌≤◌, ◌<◌, ◌≡◌, ◌≢◌, refl, sym, ap, arith, ◌==◌, ◌&&◌, if◌then◌else◌, Option,
  none, some, List, [], ◌∷◌, ◌++◌, length, get_elem?, set, count, inl, inr, ◌⊎◌, ◌∙◌, All-set,
  All-append, All-get_elem?, get_elem?-set, length-set, length-append, get_elem?-lt,
  get_elem?-append_left, get_elem?-append_end, get_elem?-append_past, get_elem?-past,
  count-cons_self, count-cons_ne, ℕ-cases, Bool-cases, true, ==_ne, ==_refl, lt-or-le,
}
use temporal_kt_bridge.Error.{done}
use temporal_kt_bridge.Handle.{
  Entry, kind, kind_of, generation_of, index_of, encode, Slot, Table, insert_into, place, slot_at,
  as_u32,
}
use temporal_kt_bridge.Handle.Codec.{fields-encode, encode-fields, kind-bounds}
use temporal_kt_bridge.Handle.Invariant.{seen, view, vacant, IsGood, IsWellFormed}

-- An insertion that went through: the slot that it filled, and what it left alone.
pub record Insertion (t : Table) (e : Entry) (owner : ℕ) : Type 0 where
  pub table : Table
  pub index : ℕ
  pub generation : ℕ
  pub runs : insert_into t e owner ≡ done (table, encode (kind e) generation index)
  pub valid : IsWellFormed table
  pub narrow : index < 2 ^ 32
  pub fits : generation < 2 ^ 24
  pub filled :
      get_elem? table.slots index
      ≡ some (record { generation = generation; owner = owner; entry = some e })
  pub fresh : vacant (get_elem? t.slots index) ≡ 1 ⊎ (get_elem? t.slots index ≡ none)
  pub others : (j : ℕ) → index ≢ j → get_elem? table.slots j ≡ get_elem? t.slots j

vacant_slot : (o : Option Slot) → 1 ≤ vacant o → (s : Slot) × (o ≡ some s) × (s.entry ≡ none)
vacant_slot none h = absurd (omega arith)
vacant_slot (some s) h = (s, refl, ground arith)

pub slot_at_lem :
    (slots : List Slot) (i : ℕ) {s : Slot} → get_elem? slots i ≡ some s → slot_at slots i ≡ done s
unfolding slot_at
slot_at_lem slots i h = rw (h, slot_at)

insert_into_lem :
    (t t' : Table) (e : Entry) (owner i : ℕ) (s : Slot)
    → place t.free t e owner ≡ done (t', i)
    → get_elem? t'.slots i ≡ some s
    → insert_into t e owner ≡ done (t', encode (kind e) s.generation i)
unfolding insert_into
insert_into_lem t t' e owner i s p h = rw (p, slot_at_lem t'.slots i h)

module _ (e : Entry) (owner : ℕ) (slots : List Slot) where
  reuse :
      (j : ℕ) (free : List ℕ) (s : Slot)
      → get_elem? slots j ≡ some s
      → s.entry ≡ none
      → IsWellFormed (record { slots = slots; free = j ∷ free })
      → Insertion (record { slots = slots; free = j ∷ free }) e owner
  unfolding place
  reuse j free s at empty v = record {
    table = table;
    index = j;
    generation = s.generation;
    runs =
        insert_into_lem (record { slots = slots; free = j ∷ free }) table e owner j s'
          (rw (slot_at_lem slots j at)) filled;
    valid = record {
      sized = rw (length-set slots j s') v.sized;
      good =
          All-set IsGood slots j s' v.good
            (record { positive = old.positive; fits = old.fits; unowned = λ h. cc });
      vacancies = counted;
    };
    narrow = omega (arith, v.sized, lt);
    fits = old.fits;
    filled = filled;
    fresh = inl once;
    others = λ i n. get_elem?-set slots j s' i lt ∙ rw (==_ne j i n);
  }
    where
      s' : Slot
      s' = record s { entry = some e; owner = owner }

      table : Table
      table = record { slots = set slots j s'; free = free }

      lt : j < length slots
      lt = get_elem?-lt slots j at

      old : IsGood s
      old = All-get_elem? IsGood slots j v.good at

      filled : get_elem? (set slots j s') j ≡ some s'
      filled = get_elem?-set slots j s' j lt ∙ rw (==_refl j)

      once : vacant (get_elem? slots j) ≡ 1
      once = rw (at, empty)

      counted : (i : ℕ) → count i free ≡ vacant (get_elem? (set slots j s') i)
      counted i = elim (ℕ-cases j i) [
        | inl same ↦
            rw (← same, filled) (omega (arith, v.vacancies j, count-cons_self j free, once))
        | inr n ↦
            rw (get_elem?-set slots j s' i lt, ==_ne j i n)
              (omega (arith, v.vacancies i, count-cons_ne i j free n))
      ]

  grow :
      IsWellFormed (record { slots = slots; free = [] })
      → length slots < 2 ^ 32
      → Insertion (record { slots = slots; free = [] }) e owner
  unfolding place
  grow v room = record {
    table = table;
    index = length slots;
    generation = 1;
    runs =
        insert_into_lem (record { slots = slots; free = [] }) table e owner (length slots) s'
          (ap (λ (i : ℕ). done (table, i)) last) filled;
    valid = record {
      sized = omega (arith, longer);
      good =
          All-append IsGood slots (s' ∷ []) v.good
            (record { positive = omega arith; fits = omega arith; unowned = λ h. cc }, tt);
      vacancies = none_vacant;
    };
    narrow = room;
    fits = omega arith;
    filled = filled;
    fresh = inr (get_elem?-past slots (length slots) (omega arith));
    others = others;
  }
    where
      s' : Slot
      s' = record { generation = 1; owner = owner; entry = some e }

      table : Table
      table = record { slots = slots ++ s' ∷ []; free = [] }

      longer : length (slots ++ s' ∷ []) ≡ length slots + 1
      longer = length-append slots (s' ∷ [])

      last : as_u32 (length (slots ++ s' ∷ []) - 1) ≡ length slots
      last = omega (arith, longer)

      filled : get_elem? (slots ++ s' ∷ []) (length slots) ≡ some s'
      filled = get_elem?-append_end slots s'

      others : (j : ℕ) → length slots ≢ j → get_elem? (slots ++ s' ∷ []) j ≡ get_elem? slots j
      others j n = elim (lt-or-le j (length slots)) [
        | inl below ↦ get_elem?-append_left slots (s' ∷ []) j below
        | inr above ↦
            get_elem?-append_past slots s' j (omega arith)
            ∙ sym (get_elem?-past slots j (omega arith))
      ]

      none_vacant : (i : ℕ) → 0 ≡ vacant (get_elem? (slots ++ s' ∷ []) i)
      none_vacant i = elim (ℕ-cases (length slots) i) [
        | inl same ↦ rw (← same, filled)
        | inr n ↦ v.vacancies i ∙ rw (others i n)
      ]

-- With room for one more index an insertion goes through.
pub insert_into-Insertion :
    (t : Table) (e : Entry) (owner : ℕ)
    → IsWellFormed t
    → length t.slots < 2 ^ 32
    → Insertion t e owner
insert_into-Insertion t e owner v room = by_free t.slots t.free v room
  where
    by_free :
        (slots : List Slot) (free : List ℕ)
        → IsWellFormed (record { slots = slots; free = free })
        → length slots < 2 ^ 32
        → Insertion (record { slots = slots; free = free }) e owner
    by_free slots [] w h = grow e owner slots w h
    by_free slots (j ∷ free) w h =
        let (s, at, empty) =
          vacant_slot (get_elem? slots j) (omega (arith, w.vacancies j, count-cons_self j free)) in
        reuse e owner slots j free s at empty w

seen-free : (x : ℕ) (o : Option Slot) → vacant o ≡ 1 ⊎ (o ≡ none) → seen x o ≡ none
seen-free x none h = refl
seen-free x (some s) h = ground arith

-- The two comparisons of a slot with a handle, at the slot's index, compare the whole handle.
pub same_fields :
    (k g i x : ℕ)
    → k < 2 ^ 8
    → g < 2 ^ 24
    → i < 2 ^ 32
    → x < 2 ^ 64
    → index_of x ≡ i
    → ((k == kind_of x) && (g == generation_of x)) ≡ (x == encode k g i)
same_fields k g i x hk hg hi lt at = elim (ℕ-cases x (encode k g i)) [
  | inl same ↦
      let (ek, eg, ei) = fields-encode k g i hk hg hi in
      rw (same, ek, eg, ==_refl k, ==_refl g, ==_refl (encode k g i))
  | inr n ↦ elim (Bool-cases ((k == kind_of x) && (g == generation_of x))) [
    | inl both ↦
        absurd (n (sym (encode-fields x lt) ∙ rw (at, same_kind both, same_generation both)))
    | inr other ↦ rw (other, ==_ne x (encode k g i) n)
  ]
]
  where
    same_kind : ((k == kind_of x) && (g == generation_of x)) ≡ true → kind_of x ≡ k
    same_kind h = ground arith

    same_generation : ((k == kind_of x) && (g == generation_of x)) ≡ true → generation_of x ≡ g
    same_generation h = ground arith

-- An insertion binds its handle, which was free and is not 0, and leaves every other handle's
-- meaning as it was.
pub Insertion-view :
    {t : Table} {e : Entry} {owner : ℕ} (ins : Insertion t e owner) (x : ℕ)
    → x < 2 ^ 64
    → let h = encode (kind e) ins.generation ins.index in
      (view t h ≡ none)
      × (view ins.table x
          ≡ (if x == h then some (record { entry = e; owner = owner }) else view t x))
Insertion-view {t} {e} {owner} ins x lt = (
  unbound,
  elim (ℕ-cases ins.index (index_of x)) [
    | inl at ↦ rw (
      ← at,
      ins.filled,
      same_fields (kind e) ins.generation ins.index x narrow_kind ins.fits ins.narrow lt (sym at),
      seen-free x (get_elem? t.slots ins.index) ins.fresh,
    )
    | inr n ↦
        rw (ins.others (index_of x) n, ==_ne x h (λ same. n (sym f.2 ∙ ap index_of (sym same))))
  ],
)
  where
    h : ℕ
    h = encode (kind e) ins.generation ins.index

    narrow_kind : kind e < 2 ^ 8
    narrow_kind = omega (arith, kind-bounds e)

    f : (kind_of h ≡ kind e) × (generation_of h ≡ ins.generation) × (index_of h ≡ ins.index)
    f = fields-encode (kind e) ins.generation ins.index narrow_kind ins.fits ins.narrow

    unbound : view t h ≡ none
    unbound = rw f.2 (seen-free h (get_elem? t.slots ins.index) ins.fresh)
