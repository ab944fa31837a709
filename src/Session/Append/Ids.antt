-- ===== src/Session/Append/Ids.antt =====
-- internal/agent/runtime/session/session.go: proofs on `generateEntryID`.
use Prim.Native.String.{slice}
use oops.Prelude.{
  ℕ, zero, suc, ◌+◌, ◌≤◌, ◌<◌, String, true, false, ◌≡◌, sym, ap, ◌∙◌, inl, inr, Dict, has, arith,
  Bool-cases,
}
use oops.Session.Entry.{Entry}
use oops.Session.Append.{generate_from, generate_entry_id}

generate_from-fresh :
    (m : Dict Entry) (uuid : ℕ → String) (rounds draw : ℕ)
    → has (uuid (draw + rounds)) m ≡ false
    → has (generate_from m uuid rounds draw) m ≡ false
unfolding generate_from
generate_from-fresh m uuid zero draw h = let e : draw + 0 ≡ draw = omega arith in rw e at h
generate_from-fresh m uuid (suc rounds) draw h =
    let e : draw + suc rounds ≡ draw + 1 + rounds = omega arith in
    elim (Bool-cases (has (slice (uuid draw) 0 8) m)) [
      | inl taken ↦ rw taken (generate_from-fresh m uuid rounds (draw + 1) (rw e at h))
      | inr free ↦ rw free free
    ]

-- If the 101st UUID is no id of the session, neither is the id that `generateEntryID` returns.
pub generate_entry_id-fresh :
    (m : Dict Entry) (uuid : ℕ → String)
    → has (uuid 100) m ≡ false
    → has (generate_entry_id m uuid) m ≡ false
unfolding generate_entry_id
generate_entry_id-fresh m uuid h = generate_from-fresh m uuid 100 0 h

generate_from-full :
    (m : Dict Entry) (uuid : ℕ → String) (rounds draw : ℕ)
    → ((k : ℕ) → draw ≤ k → k < draw + rounds → has (slice (uuid k) 0 8) m ≡ true)
    → generate_from m uuid rounds draw ≡ uuid (draw + rounds)
unfolding generate_from
generate_from-full m uuid zero draw h = let e : draw ≡ draw + 0 = omega arith in ap uuid e
generate_from-full m uuid (suc rounds) draw h =
    let taken = h draw (omega arith) (omega arith) in
    let e : draw + suc rounds ≡ draw + 1 + rounds = omega arith in
    rw taken (
      generate_from-full m uuid rounds (draw + 1) (λ k p q. h k (omega arith) (omega arith))
      ∙ ap uuid (sym e))

-- If the first eight characters of each of the first 100 UUIDs are an id of the session
-- already, `generateEntryID` returns the 101st UUID whole.
pub generate_entry_id-full :
    (m : Dict Entry) (uuid : ℕ → String)
    → ((k : ℕ) → k < 100 → has (slice (uuid k) 0 8) m ≡ true)
    → generate_entry_id m uuid ≡ uuid 100
unfolding generate_entry_id
generate_entry_id-full m uuid h = generate_from-full m uuid 100 0 (λ k p q. h k q)
