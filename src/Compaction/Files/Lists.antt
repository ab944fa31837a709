-- ===== src/Compaction/Files/Lists.antt =====
-- internal/agent/runtime/compaction/utils.go: proofs on `ComputeFileLists`.
use oops.Prelude.{
  String, List, [], ◌∷◌, not, ◌&&◌, ◌||◌, ◌≡◌, sym, ◌∙◌, ap, arith, contains, contains-add, add,
  keep,
}
use oops.Ai.Types.{Stdlib}
use oops.Session.Details.{Json}
use oops.Session.Details.Parts.{Sorts, contains-keep}
use oops.Compaction.Files.{FileOperations, union, compute_file_lists}

module _ (std : Stdlib) (json : Json) where
  contains-union :
      (x : String) (xs ys : List String)
      → contains x (union std json xs ys) ≡ (contains x xs || contains x ys)
  contains-union x xs [] = ground arith
  contains-union x xs (y ∷ ys) =
      contains-union x (add y xs) ys ∙ ground (arith, contains-add y x xs)

  -- If sorting keeps the elements of a list, the modified files that `ComputeFileLists` gives
  -- are those written or edited, and the read files those read that are not among the modified
  -- ones.
  pub compute_file_lists-contains :
      (ops : FileOperations) (path : String)
      → Sorts json
      → (contains path (compute_file_lists std json ops).1
          ≡ (contains path ops.written || contains path ops.edited))
        × (contains path (compute_file_lists std json ops).0
            ≡ (contains path ops.read && not (contains path (compute_file_lists std json ops).1)))
  unfolding compute_file_lists
  compute_file_lists-contains ops path sorts =
      let modified = union std json (union std json [] ops.written) ops.edited in
      let both = contains-union path (union std json [] ops.written) ops.edited in
      let first = contains-union path [] ops.written in
      (
        sorts path modified ∙ both ∙ ap (λ b. b || contains path ops.edited) first,
        sorts path (keep (λ p. not (contains p modified)) ops.read)
            ∙ contains-keep path modified ops.read
            ∙ ap (λ b. contains path ops.read && not b) (sym (sorts path modified)),
      )
