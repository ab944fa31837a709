-- ===== src/Session/Details/Parts.antt =====
-- internal/agent/runtime/session/summary.go: proofs on `collectSummaryDetails`.
use oops.Prelude.{
  String, Option, none, some, List, [], ◌∷◌, ◌++◌, not, ◌&&◌, ◌||◌, ◌≡◌, refl, ◌∙◌, ap, arith,
  contains, contains-add, keep, str_eq, eq_iff, Bool-cases, inl, inr,
}
use oops.Ai.Types.{Stdlib, Content, AgentMessage}
use oops.Session.Entry.{Entry}
use oops.Session.Details.{
  Json, FileOps, no_ops, add_path, add_paths, path_from_raw_arguments, path_from_details, add_named,
  extract_assistant, extract_entry, merge_parsed, merge_details, collect, collect_summary_details,
}

-- `sort.Strings` keeps the elements.
abbrev pub Sorts : Json → Type 0
Sorts json = (x : String) (l : List String) → contains x (json.sort l) ≡ contains x l

pub contains-keep :
    (x : String) (modified l : List String)
    → contains x (keep (λ path. not (contains path modified)) l)
      ≡ (contains x l && not (contains x modified))
contains-keep x modified [] = refl
contains-keep x modified (y ∷ l) = elim (Bool-cases (str_eq y x)) [
  | inl e ↦
      ground
        (arith, e, ap (λ i. contains i modified) ((eq_iff y x).0 e), contains-keep x modified l)
  | inr e ↦ ground (arith, e, contains-keep x modified l)
]

-- What a call adds does not depend on what was there.
abbrev Adds : String → (FileOps → FileOps) → Type 0
Adds p f =
    (ops : FileOps)
    → (contains p (f ops).read ≡ (contains p ops.read || contains p (f no_ops).read))
      × (contains p (f ops).modified ≡ (contains p ops.modified || contains p (f no_ops).modified))

Adds-then : (p : String) (f g : FileOps → FileOps) → Adds p f → Adds p g → Adds p (λ ops. g (f ops))
Adds-then p f g h k ops =
    let (a, b) = h ops in
    let (c, d) = k (f ops) in
    let (e, i) = k (f no_ops) in (ground (arith, a, c, e), ground (arith, b, d, i))

Adds-id : (p : String) → Adds p (λ ops. ops)
Adds-id p ops = (ground arith, ground arith)

module _ (std : Stdlib) (json : Json) (p : String) where
  add_path-adds :
      (target : List String) (path : String)
      → contains p (add_path std json target path)
        ≡ (contains p target || contains p (add_path std json [] path))
  unfolding add_path
  add_path-adds target path =
      ground (
        arith,
        contains-add (std.trim_space path) p target,
        contains-add (std.trim_space path) p [],
      )

  add_paths-adds :
      (target paths : List String)
      → contains p (add_paths std json target paths)
        ≡ (contains p target || contains p (add_paths std json [] paths))
  unfolding add_paths
  add_paths-adds target [] = ground arith
  add_paths-adds target (path ∷ rest) = ground (
    arith,
    add_paths-adds (add_path std json target path) rest,
    add_paths-adds (add_path std json [] path) rest,
    add_path-adds target path,
  )

  add_named-Adds : (name path : String) → Adds p (add_named std json name path)
  unfolding add_named
  add_named-Adds name path ops =
      (ground (arith, add_path-adds ops.read path), ground (arith, add_path-adds ops.modified path))

  extract_assistant-Adds : (content : List Content) → Adds p (extract_assistant std json content)
  unfolding extract_assistant
  extract_assistant-Adds [] = Adds-id p
  extract_assistant-Adds (Content.tool_call call ∷ rest) =
      Adds-then p (add_named std json call.name (path_from_raw_arguments std json call.arguments))
        (extract_assistant std json rest)
        (add_named-Adds call.name (path_from_raw_arguments std json call.arguments))
        (extract_assistant-Adds rest)
  extract_assistant-Adds (Content.text t ∷ rest) = extract_assistant-Adds rest
  extract_assistant-Adds (Content.thinking t ∷ rest) = extract_assistant-Adds rest
  extract_assistant-Adds (Content.image t ∷ rest) = extract_assistant-Adds rest
  extract_assistant-Adds (Content.nil ∷ rest) = extract_assistant-Adds rest

  extract_entry-Adds : (m : AgentMessage) → Adds p (extract_entry std json m)
  unfolding extract_entry
  extract_entry-Adds (AgentMessage.assistant m) = extract_assistant-Adds m.content
  extract_entry-Adds (AgentMessage.tool_result m) =
      add_named-Adds m.tool_name (path_from_details std json m.details)
  extract_entry-Adds (AgentMessage.user m) = Adds-id p
  extract_entry-Adds AgentMessage.nil = Adds-id p

  merge_parsed-Adds : (o : Option (List String × List String)) → Adds p (merge_parsed std json o)
  merge_parsed-Adds none ops = Adds-id p ops
  merge_parsed-Adds (some (r, m)) ops = (add_paths-adds ops.read r, add_paths-adds ops.modified m)

  merge_details-Adds : (o : Option String) → Adds p (merge_details std json o)
  merge_details-Adds none ops = Adds-id p ops
  merge_details-Adds (some d) ops = elim (Bool-cases (str_eq d "")) [
    | inl e ↦ simp e (Adds-id p ops)
    | inr e ↦ simp e (merge_parsed-Adds (json.summary_details d) ops)
  ]

  collect-Adds : (entries : List Entry) → Adds p (collect std json entries)
  unfolding collect
  collect-Adds [] = Adds-id p
  collect-Adds (e ∷ rest) =
      Adds-then p (λ ops. extract_entry std json e.message (merge_details std json e.details ops))
        (collect std json rest)
        (Adds-then p (merge_details std json e.details) (extract_entry std json e.message)
          (merge_details-Adds e.details) (extract_entry-Adds e.message))
        (collect-Adds rest)

collect-append :
    (std : Stdlib) (json : Json) (xs ys : List Entry) (ops : FileOps)
    → collect std json (xs ++ ys) ops ≡ collect std json ys (collect std json xs ops)
unfolding collect
collect-append std json [] ys ops = refl
collect-append std json (e ∷ xs) ys ops =
    collect-append std json xs ys
      (extract_entry std json e.message (merge_details std json e.details ops))

-- If sorting keeps the elements of a list, the modified files that `collectSummaryDetails`
-- gives for two ranges of entries, one behind the other, are those of either range, and the
-- read files are those read in either range that are not modified in the two together.
pub collect_summary_details-append :
    (std : Stdlib) (json : Json) (p : String) (xs ys : List Entry)
    → Sorts json
    → (contains p (collect_summary_details std json (xs ++ ys)).modified_files ≡ (
        contains p (collect_summary_details std json xs).modified_files
        || contains p (collect_summary_details std json ys).modified_files))
      × (contains p (collect_summary_details std json (xs ++ ys)).read_files ≡ (
          (contains p (collect_summary_details std json xs).read_files
            || contains p (collect_summary_details std json ys).read_files)
          && not (contains p (collect_summary_details std json (xs ++ ys)).modified_files)))
unfolding collect_summary_details
collect_summary_details-append std json p xs ys sorts =
    let all = collect std json (xs ++ ys) no_ops in
    let front = collect std json xs no_ops in
    let back = collect std json ys no_ops in
    let joined = collect-append std json xs ys no_ops in
    let (r, m) = collect-Adds std json p ys front in
    let reads : contains p all.read ≡ (contains p front.read || contains p back.read) =
      ap (λ (o : FileOps). contains p o.read) joined ∙ r in
    let changes : contains p all.modified
        ≡ (contains p front.modified || contains p back.modified) =
      ap (λ (o : FileOps). contains p o.modified) joined ∙ m in
    let of_all =
      sorts p (keep (λ path. not (contains path all.modified)) all.read)
      ∙ contains-keep p all.modified all.read in
    let of_front =
      sorts p (keep (λ path. not (contains path front.modified)) front.read)
      ∙ contains-keep p front.modified front.read in
    let of_back =
      sorts p (keep (λ path. not (contains path back.modified)) back.read)
      ∙ contains-keep p back.modified back.read in
    (
      ground (arith, sorts p all.modified, sorts p front.modified, sorts p back.modified, changes),
      ground (arith, sorts p all.modified, reads, changes, of_all, of_front, of_back),
    )
