-- ===== src/Session/Navigate/Nearest.antt =====
-- internal/agent/runtime/session/navigation.go: proofs on the rounds of the search for an assistant message.
use oops.Prelude.{
  ℕ, zero, suc, String, none, some, List, [], ◌∷◌, ◌||◌, ◌≡◌, ◌<◌, refl, ap, arith, lookup, length,
  contains, str_eq, Bool-cases, Option-cases, inl, inr, if◌then◌else◌,
}
use oops.Session.Entry.{Entry}
use oops.Session.Tree.{Session}
use oops.Session.Tree.Walk.{unseen, unseen-lt, unseen-length}
use oops.Session.Navigate.{
  is_set, assistant_tool_call_ids, tool_result_call_id, nearest_loop, nearest_assistant_tool_call,
}

-- More rounds than there are entries left to see change nothing.
nearest_loop_enough :
    (s : Session) (fuel : ℕ) (seen : List String) (id : String)
    → unseen s.entries seen < fuel
    → nearest_loop s (suc fuel) seen id ≡ nearest_loop s fuel seen id
unfolding nearest_loop
nearest_loop_enough s zero seen id h = absurd (omega (arith, h))
nearest_loop_enough s (suc fuel) seen id h = elim (Bool-cases (str_eq id "" || contains id seen)) [
  | inl e ↦ simp e refl
  | inr e ↦ elim (Option-cases (lookup id s.entries)) [
    | inl l ↦ simp (e, l) refl
    | inr (current, l) ↦
        let less = unseen-lt s.entries id seen current l (ground (arith, e)) in
        let rest =
          nearest_loop_enough s fuel (id ∷ seen) current.parent_id (omega (arith, h, less)) in
        simp (e, l)
          (ap
            (λ r.
              if is_set (assistant_tool_call_ids current)
              then some current
              else if is_set (tool_result_call_id current)
              then r
              else none)
            rest)
  ]
]

pub nearest_assistant_tool_call_enough :
    (s : Session) (entry : Entry)
    → nearest_loop s (suc (suc (length s.entries))) [] entry.parent_id
      ≡ nearest_assistant_tool_call s entry
unfolding nearest_assistant_tool_call
nearest_assistant_tool_call_enough s entry =
    nearest_loop_enough s (suc (length s.entries)) [] entry.parent_id
      (omega (arith, unseen-length s.entries []))
