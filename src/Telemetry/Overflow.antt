-- ===== src/Telemetry/Overflow.antt =====
-- The bounded queue of samples against a reference: src/telemetry.rs, core-bridge/rust/kt-bridge.
use temporal_kt_bridge.Base.{
  ℕ, zero, suc, ◌+◌, ◌-◌, ◌%◌, ◌^◌, ◌≤◌, ◌<◌, ◌≡◌, ◌≢◌, refl, sym, ap, ◌∙◌, arith, List, [], ◌∷◌,
  ◌++◌, append_assoc, append-nil, length, length-append, length-drop, drop, drop-drop, ==_refl,
  ==_ne, ℕ-cases, inl, inr,
}
use temporal_kt_bridge.Telemetry.{Sample, State, push_sample, tail}

-- The samples of one instrument after another.
unfoldable pub push_all : ℕ → State → List Sample → State
push_all limit s [] = s
push_all limit s (x ∷ xs) = push_all limit (push_sample limit s x) xs

drop-append {ℓ} :
    {A : Type ℓ} (n : ℕ) (xs ys : List A) → n ≤ length xs → drop n xs ++ ys ≡ drop n (xs ++ ys)
drop-append zero xs ys h = refl
drop-append (suc n) [] ys h = absurd (omega arith)
drop-append (suc n) (x ∷ xs) ys h = drop-append n xs ys (omega arith)

-- A full queue loses its first sample, another keeps them all.
drop_first : (xs : List Sample) (x : Sample) → xs ≢ [] → tail xs ++ x ∷ [] ≡ drop 1 (xs ++ x ∷ [])
drop_first [] x n = absurd (n refl)
drop_first (y ∷ ys) x n = refl

pub length-tail : (xs : List Sample) → length (tail xs) ≡ length xs - 1
length-tail [] = refl
length-tail (x ∷ xs) = omega arith

-- One sample more: of the samples with it, the last `limit`.
pub push_sample-updates :
    (limit : ℕ) (s : State) (x : Sample)
    → limit ≢ 0
    → length s.updates ≤ limit
    → (push_sample limit s x).updates ≡ drop (length s.updates + 1 - limit) (s.updates ++ x ∷ [])
unfolding push_sample
push_sample-updates limit s x n h = elim (ℕ-cases (length s.updates) limit) [
  | inl full ↦
      let one : length s.updates + 1 - limit ≡ 1 = omega (arith, full) in
      rw (one, full, ==_refl limit) (drop_first s.updates x (λ e. n (sym full ∙ ap length e)))
  | inr room ↦
      let zero_over : length s.updates + 1 - limit ≡ 0 = omega (arith, room, h) in
      rw (zero_over, ==_ne (length s.updates) limit room) refl
]

pub push_sample-dropped :
    (limit : ℕ) (s : State) (x : Sample)
    → s.dropped < 2 ^ 64
    → length s.updates ≤ limit
    → (push_sample limit s x).dropped ≡ (s.dropped + (length s.updates + 1 - limit)) % 2 ^ 64
unfolding push_sample
push_sample-dropped limit s x w h = elim (ℕ-cases (length s.updates) limit) [
  | inl full ↦ rw (full, ==_refl limit) (omega arith)
  | inr room ↦ rw (==_ne (length s.updates) limit room) (omega (arith, room, h))
]

-- However many samples are recorded on a queue of a limit that is not 0, which starts within the limit and
-- with a count of a u64, it holds the last of the samples that it had and was given, as many as the limit,
-- in order, and has counted each of the others as dropped, modulo 2 ^ 64.
pub push_all_lem :
    (limit : ℕ) (s : State) (xs : List Sample)
    → limit ≢ 0
    → s.dropped < 2 ^ 64
    → length s.updates ≤ limit
    → let over = length (s.updates ++ xs) - limit in
      ((push_all limit s xs).updates ≡ drop over (s.updates ++ xs))
      × ((push_all limit s xs).dropped ≡ (s.dropped + over) % 2 ^ 64)
      × (length (push_all limit s xs).updates ≤ limit)
unfolding push_all
push_all_lem limit s [] n w h =
    let fits : length (s.updates ++ []) - limit ≡ 0 =
      omega (arith, h, ap length (append-nil s.updates)) in
    (rw (fits) (sym (append-nil s.updates)), omega (arith, fits, w), h)
push_all_lem limit s (x ∷ xs) n w h =
    let s' = push_sample limit s x in
    let e : ℕ = length s.updates + 1 - limit in
    let all = s.updates ++ x ∷ xs in
    let count : length all ≡ length s.updates + 1 + length xs =
      omega (arith, length-append s.updates (x ∷ xs)) in
    let one : length (s.updates ++ x ∷ []) ≡ length s.updates + 1 =
      omega (arith, length-append s.updates (x ∷ [])) in
    let updates = push_sample-updates limit s x n h in
    let lost = push_sample-dropped limit s x w h in
    let kept : length s'.updates ≡ length s.updates + 1 - e =
      omega (arith, ap length updates, length-drop e (s.updates ++ x ∷ []), one) in
    let rest : s'.updates ++ xs ≡ drop e all =
      ap (λ (l : List Sample). l ++ xs) updates
      ∙ drop-append e (s.updates ++ x ∷ []) xs (omega (arith, one, n))
      ∙ ap (drop e) (append_assoc s.updates (x ∷ []) xs) in
    let left : length (s'.updates ++ xs) ≡ length all - e =
      omega (arith, ap length rest, length-drop e all) in
    let (later, counted, bounded) =
      push_all_lem limit s' xs n (omega (arith, lost)) (omega (arith, kept, h, n)) in
    (
      later
          ∙ ap (drop (length (s'.updates ++ xs) - limit)) rest
          ∙ drop-drop (length (s'.updates ++ xs) - limit) e all
          ∙ ap (λ (k : ℕ). drop k all) (omega (arith, left, count, n)),
      omega (arith, counted, lost, left, count, n),
      bounded,
    )
