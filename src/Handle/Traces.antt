-- ===== src/Handle/Traces.antt =====
-- The runs of the handle table against those of its specification: src/handle.rs of
-- core-bridge/rust/kt-bridge.
use temporal_kt_bridge.Base.{ℕ, ◌^◌, ◌<◌, ◌≡◌, refl, sym, ◌∙◌, subst, List, [], ◌∷◌, length, none}
use temporal_kt_bridge.Error.{done}
use temporal_kt_bridge.Handle.{Table, new}
use temporal_kt_bridge.Handle.Invariant.{view, new-IsWellFormed}
use temporal_kt_bridge.Handle.Refinement.{
  Op, insert_free, insert_under, remove, remove_owner, Reply, execute, Map, Allowed,
}
use temporal_kt_bridge.Handle.Simulation.{
  IsWord, Related, Simulated, insert_free-Simulated, insert_under-Simulated, remove-Simulated,
  remove_owner-Simulated,
}

-- A run of the table on operations, with their replies. There is room for one more index before each.
pub data Runs : Table → List (Op × Reply) → Table → Type 0 where
  stop : (t : Table) → Runs t [] t
  go :
      (t t' u : Table) (op : Op) (reply : Reply) (rest : List (Op × Reply))
      → IsWord op
      → length t.slots < 2 ^ 32
      → execute t op ≡ done (t', reply)
      → Runs t' rest u
      → Runs t ((op, reply) ∷ rest) u

-- The same replies, as the specification allows them.
pub data Permits : Map → List (Op × Reply) → Map → Type 0 where
  stop : (m : Map) → Permits m [] m
  go :
      (m m' u : Map) (op : Op) (reply : Reply) (rest : List (Op × Reply))
      → Allowed m op reply m'
      → Permits m' rest u
      → Permits m ((op, reply) ∷ rest) u

simulates :
    (t : Table) (m : Map) (op : Op)
    → Related t m
    → length t.slots < 2 ^ 32
    → IsWord op
    → Simulated t m op
simulates t m (insert_free e) rel room w = insert_free-Simulated t m rel e room
simulates t m (insert_under owner e n) rel room w = insert_under-Simulated t m rel owner e n room w
simulates t m (remove x k) rel room w = remove-Simulated t m rel x k w
simulates t m (remove_owner x) rel room w = remove_owner-Simulated t m rel x w

Runs-Permits :
    {t u : Table} {trace : List (Op × Reply)} (m : Map)
    → Runs t trace u
    → Related t m
    → (m' : Map) × Permits m trace m' × Related u m'
Runs-Permits m (stop t) rel = (m, stop m, rel)
Runs-Permits m (go t t' u op reply rest w room runs later) rel =
    let s = simulates t m op rel room w in
    let same : (s.table ≡ t') × (s.reply ≡ reply) = let e = sym s.runs ∙ runs in (cc, cc) in
    let (m', permits, after) =
      Runs-Permits s.map later (subst (λ x. Related x s.map) same.0 s.related) in
    (
      m',
      go m s.map m' op reply rest (subst (λ r. Allowed m op r s.map) same.1 s.allowed) permits,
      after,
    )

-- Every run of the handle table from the empty one, on 64-bit handles, with room for one more index before
-- each operation and no runtime inserted under an owner, gives replies that the specification by a partial map allows from the empty map,
-- and leaves a table that is the specification's map on every 64-bit handle; and in every state that it
-- reaches with room, every operation returns.
pub table_refines_map :
    (trace : List (Op × Reply)) (t : Table)
    → Runs new trace t
    → ((m : Map) × Permits (λ x. none) trace m × ((x : ℕ) → x < 2 ^ 64 → view t x ≡ m x))
      × ((op : Op)
          → IsWord op
          → length t.slots < 2 ^ 32
          → (t' : Table) × (reply : Reply) × (execute t op ≡ done (t', reply)))
unfolding new
table_refines_map trace t r =
    let (m, permits, rel) =
      Runs-Permits (λ x. none) r
        (record {
          valid = new-IsWellFormed;
          agrees = λ x lt. refl;
          free_standing = λ x r o lt h. cc;
        }) in
    (
      (m, permits, rel.agrees),
      λ op w room. let s = simulates t m op rel room w in (s.table, s.reply, s.runs),
    )
