-- ===== src/Queue/Batch.antt =====
-- Every payload of a batch reaches the reader: the slab of src/queue.rs, core-bridge/rust/kt-bridge.
use temporal_kt_bridge.Base.{
  is_empty, ℕ, ◌+◌, ◌≤◌, ◌≡◌, refl, sym, ap, ◌∙◌, arith, Bytes, List, [], ◌∷◌, map, ◌++◌, length,
  take, drop, length-append, length-take, length-drop, take-append, drop-append, take-take,
  take-drop, Bool-cases, inl, inr, le→leb, true,
}
use temporal_kt_bridge.Error.{done}
use temporal_kt_bridge.Abi.{KtCompletion}
use temporal_kt_bridge.Queue.{Pending}
use temporal_kt_bridge.Queue.Slab.{BatchBuf, write, put, read}
use temporal_kt_bridge.Queue.Poll.{total_len, completion, put_payload, fill}

module _ (bytes src : Bytes) (start : ℕ) (fits : start + length src ≤ length bytes) where
  front : length (take start bytes ++ src) ≡ start + length src
  front = omega (arith, length-append (take start bytes) src, length-take start bytes)

  length-write : length (write bytes start src) ≡ length bytes
  unfolding write
  length-write = omega (
    arith,
    front,
    length-append (take start bytes ++ src) (drop (start + length src) bytes),
    length-drop (start + length src) bytes,
  )

  take-write : take (start + length src) (write bytes start src) ≡ take start bytes ++ src
  unfolding write
  take-write =
      ap (λ (n : ℕ). take n (take start bytes ++ src ++ drop (start + length src) bytes))
        (sym front)
      ∙ take-append (take start bytes ++ src) (drop (start + length src) bytes)

  -- The bytes up to the end of the copy decide what is read back.
  read_back :
      (others : Bytes)
      → take (start + length src) others ≡ take (start + length src) (write bytes start src)
      → take (length src) (drop start others) ≡ src
  read_back others same =
      take-drop (length src) start others
      ∙ ap (drop start) (same ∙ take-write)
      ∙ ap (λ (n : ℕ). drop n (take start bytes ++ src)) (omega (arith, length-take start bytes))
      ∙ drop-append (take start bytes) src

  keep_front : take start (write bytes start src) ≡ take start bytes
  keep_front =
      sym (take-take start (start + length src) (write bytes start src) (omega arith))
      ∙ ap (take start) take-write
      ∙ ap (λ (n : ℕ). take n (take start bytes ++ src)) (omega (arith, length-take start bytes))
      ∙ take-append (take start bytes) src

-- The record describes the completion, and the payload can be read at the address that it gives.
abbrev pub Matches : BatchBuf → Pending → KtCompletion → Type 0
Matches b p r =
    (r ≡ completion p r.payload (length p.payload)) × (read b r.payload r.payload_len ≡ p.payload)

-- One record for each completion, in order.
abbrev pub Delivers : BatchBuf → List Pending → List KtCompletion → Type 0
Delivers b [] [] = Unit
Delivers b [] (r ∷ rs) = ⊥
Delivers b (p ∷ ps) [] = ⊥
Delivers b (p ∷ ps) (r ∷ rs) = Matches b p r × Delivers b ps rs

-- The completion as it is dropped after the batch.
abbrev pub released : Pending → Pending
released p = record p { aux0 = 0 }

-- One payload copied: where it stands, and that it stays there while the bytes up to its end do.
record Copied (b : BatchBuf) (p : Pending) : Type 0 where
  buf : BatchBuf
  address : ℕ
  runs : put_payload b p ≡ done (buf, address, length p.payload)
  stays : buf.base ≡ b.base
  same_size : length buf.bytes ≡ length b.bytes
  keeps : take b.used buf.bytes ≡ take b.used b.bytes
  uses : buf.used ≡ b.used + length p.payload
  reads :
      (later : BatchBuf)
      → later.base ≡ b.base
      → take (b.used + length p.payload) later.bytes ≡ take (b.used + length p.payload) buf.bytes
      → read later address (length p.payload) ≡ p.payload

empty_payload : (xs : Bytes) → is_empty xs ≡ true → xs ≡ []
empty_payload [] h = refl
empty_payload (x ∷ xs) h = ground arith

put_payload-Copied :
    (b : BatchBuf) (p : Pending) → b.used + length p.payload ≤ length b.bytes → Copied b p
unfolding put_payload put read
put_payload-Copied b p fits = elim (Bool-cases (is_empty p.payload)) [
  | inl nothing ↦
      let e : p.payload ≡ [] = empty_payload p.payload nothing in
      record {
        buf = b;
        address = 0;
        runs = rw (nothing, e);
        stays = refl;
        same_size = refl;
        keeps = refl;
        uses = omega (arith, ap length e);
        reads = λ later base same. rw e;
      }
  | inr something ↦ record {
    buf = record b { bytes = write b.bytes b.used p.payload; used = b.used + length p.payload };
    address = b.base + b.used;
    runs = rw (something, le→leb _ _ fits);
    stays = refl;
    same_size = length-write b.bytes p.payload b.used fits;
    keeps = keep_front b.bytes p.payload b.used fits;
    uses = refl;
    reads = λ later base same.
        ap (λ (n : ℕ). take (length p.payload) (drop n later.bytes)) (omega (arith, base))
        ∙ read_back b.bytes p.payload b.used fits later.bytes same;
  }
]

pub record Filled (b : BatchBuf) (ps : List Pending) : Type 0 where
  pub buf : BatchBuf
  pub records : List KtCompletion
  pub runs : fill b ps ≡ done (buf, records, map released ps)
  pub delivers : Delivers buf ps records
  pub stays : buf.base ≡ b.base
  pub same_size : length buf.bytes ≡ length b.bytes
  pub keeps : take b.used buf.bytes ≡ take b.used b.bytes

fill-step :
    (b : BatchBuf) (p : Pending) (ps : List Pending) (one : Copied b p)
    → Filled one.buf ps
    → Filled b (p ∷ ps)
unfolding fill
fill-step b p ps one rest = record {
  buf = rest.buf;
  records = completion p one.address (length p.payload) ∷ rest.records;
  runs = rw one.runs (rw rest.runs);
  delivers = (
    (refl, one.reads rest.buf (rest.stays ∙ one.stays) (up_to rest.buf rest.keeps)),
    rest.delivers,
  );
  stays = rest.stays ∙ one.stays;
  same_size = rest.same_size ∙ one.same_size;
  keeps =
      sym (take-take b.used one.buf.used rest.buf.bytes (omega (arith, one.uses)))
      ∙ ap (take b.used) rest.keeps
      ∙ take-take b.used one.buf.used one.buf.bytes (omega (arith, one.uses))
      ∙ one.keeps;
}
  where
    up_to :
        (later : BatchBuf)
        → take one.buf.used later.bytes ≡ take one.buf.used one.buf.bytes
        → take (b.used + length p.payload) later.bytes
          ≡ take (b.used + length p.payload) one.buf.bytes
    up_to later same = rw (← one.uses) same

-- A batch that fits is copied without a panic, the memory does not move, and every payload reads
-- back from the final buffer.
pub fill-Filled :
    (b : BatchBuf) (ps : List Pending) → b.used + total_len ps ≤ length b.bytes → Filled b ps
unfolding fill
fill-Filled b [] h = record {
  buf = b;
  records = [];
  runs = refl;
  delivers = tt;
  stays = refl;
  same_size = refl;
  keeps = refl;
}
fill-Filled b (p ∷ ps) h =
    let one : Copied b p = put_payload-Copied b p (omega arith) in
    fill-step b p ps one (fill-Filled one.buf ps (omega (arith, one.uses, one.same_size)))
