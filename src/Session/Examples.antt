-- ===== src/Session/Examples.antt =====
-- Small sessions and message sequences, on which the definitions are run and the theorems applied.
use oops.Prelude.{
  ℕ, String, none, some, [], ◌∷◌, ◌++◌, Bool, true, false, ◌≡◌, ◌↔◌, ◌⊎◌, refl, ok, err, Result,
  has, lookup, insert, All,
}
use oops.Ai.Types.{
  Stdlib, ContentType, MessageRole, StopReason, Content, AgentMessage, MessageList, Usage,
}
use oops.Ai.Validate.{validate_message}
use oops.Session.Sequence.{
  message_sequence_items, analyze_message_sequence, validate_message_sequence, tool_call_id_set,
}
use oops.Session.Sequence.Grammar.{Parses}
use oops.Session.Sequence.Complete.{Verdict}
use oops.Session.Sequence.Decides.{analyze_exact, validate_iff_parses}
use oops.Session.Entry.{
  Entry, Error, unknown_leaf, validate_entry, zero_entry, ForkOptions, ForkPosition,
}
use oops.Session.Tree.{
  Session, new, path_to_leaf, last_compaction_index, entries, validate_compaction_reference,
}
use oops.Session.Tree.Walk.{Walk, path_to_leaf-Walk}
use oops.Session.Append.{
  Call, append, message_entry, generate_entry_id, prepare_entry, filled, store_entry,
}
use oops.Session.Append.Ids.{generate_entry_id-fresh, generate_entry_id-full}
use oops.Session.Valid.{IsValid, known}
use oops.Session.Valid.Append.{IsNew, append-IsValid, path_to_leaf-append, path_to_leaf-append_leaf}
use oops.Session.Valid.Load.{load-IsValid, blank-IsValid}
use oops.Session.Valid.Leaf.{executable_leaf-known}
use oops.Session.Valid.Boundary.{Nearest, accepts, safe_boundary-Nearest}
use oops.Session.Valid.Journal.{Journals, append-Journals}
use oops.Session.Valid.Reach.{append_entry, Reach, start, step, Good, Reach-Good}
use oops.Session.Valid.Fork.{NoLeaf}
use oops.Session.Valid.Forked.{fork-IsValid}
use oops.Session.Navigate.{NavigationResult, resolve_navigation_target}
use oops.Session.Navigate.Target.{resolve_navigation_target-known}
use oops.Session.Summary.{entries_for_branch_summary, first_kept_entry_id}
use oops.Session.Summary.Branches.{IsBranch, entries_for_branch_summary-IsBranch}
use oops.Session.Summary.Kept.{IsKept, first_kept_entry_id-IsKept}
use oops.Session.Context.{executable_leaf, safe_boundary, analyze_leaf, context_messages_for_leaf}
use oops.Session.Load.{load, load_entry, load_entries, validate_loaded_history}
use oops.Session.Fork.{fork, fork_source, copied, store_all, store_optional, with_metadata, Source}

abbrev pub std : Stdlib
std = record {
  json_valid = λ _. true;
  is_json_object = λ _. true;
  trim_space = λ s. s;
  unix_milli = λ n. n;
}

abbrev text : String → Content
text t = Content.text (record { type = ContentType.text; text = t; text_signature = "" })

abbrev pub hello : AgentMessage
hello =
    AgentMessage.user
      (record { role = MessageRole.user; content = text "hello" ∷ []; timestamp = 1 })

abbrev no_usage : Usage
no_usage = record { input = 0; output = 0; cache_read = 0; cache_write = 0; total_tokens = 0 }

abbrev call_of : String → Content
call_of id = Content.tool_call (record {
  type = ContentType.tool_call;
  id = id;
  name = "grep";
  arguments = "{}";
  thought_signature = "";
})

abbrev pub asking : AgentMessage
asking = AgentMessage.assistant (record {
  role = MessageRole.assistant;
  content = call_of "a" ∷ call_of "b" ∷ [];
  provider = "p";
  model = "m";
  response_model = "";
  response_id = "";
  usage = no_usage;
  stop_reason = StopReason.tool_use;
  error_message = "";
  timestamp = 2;
})

abbrev pub answer : String → AgentMessage
answer id = AgentMessage.tool_result (record {
  role = MessageRole.tool_result;
  tool_call_id = id;
  tool_name = "grep";
  content = text "found" ∷ [];
  details = none;
  is_error = false;
  timestamp = 3;
})

-- Two calls, answered in the other order; and the same with an answer missing.
abbrev answered : MessageList
answered = hello ∷ asking ∷ answer "b" ∷ answer "a" ∷ []

abbrev waiting : MessageList
waiting = hello ∷ asking ∷ answer "b" ∷ []

answered_valid : validate_message_sequence answered ≡ ok tt
unfolding validate_message_sequence message_sequence_items tool_call_id_set
answered_valid = refl

validate_iff_parses_example :
    (validate_message_sequence answered ≡ ok tt) ↔ Parses (message_sequence_items answered) none
validate_iff_parses_example = validate_iff_parses answered

answered_parses : Parses (message_sequence_items answered) none
answered_parses = (validate_iff_parses answered).0 answered_valid

analyze_exact_example :
    Verdict (analyze_message_sequence waiting) (some 1)
    ↔ Parses (message_sequence_items waiting) (some 1)
analyze_exact_example = analyze_exact waiting (some 1)

abbrev is_ok : {A : Type 0} → Result Error A → Bool
is_ok (ok a) = true
is_ok (err e) = false

abbrev value_or : {A : Type 0} → A → Result Error A → A
value_or d (ok a) = a
value_or d (err e) = d

ok_of : {A : Type 0} (d : A) (m : Result Error A) → is_ok m ≡ true → m ≡ ok (value_or d m)
ok_of d (ok a) h = refl
ok_of d (err e) h = cc

abbrev call_at : String → ℕ → Call
call_at id now = record { now = now; uuid = λ k. id }

unfoldable pub empty : Session
unfolding new
empty = new "s" "" 0

unfoldable pub first_append : Result Error (Session × Entry)
first_append = append std (call_at "aaaaaaaa-1" 5) empty (message_entry hello)

unfoldable pub one : Session
one = (value_or (empty, zero_entry) first_append).0

first : Entry
first = (value_or (empty, zero_entry) first_append).1

first_ok : is_ok first_append ≡ true
unfolding first_append empty append generate_entry_id lookup has prepare_entry validate_entry filled
    validate_message validate_compaction_reference
first_ok = refl

first_is : append std (call_at "aaaaaaaa-1" 5) empty (message_entry hello) ≡ ok (one, first)
unfolding one first first_append
first_is = ok_of (empty, zero_entry) first_append first_ok

empty_has : has "aaaaaaaa-1" empty.entries ≡ false
unfolding empty has
empty_has = refl

one_reached : Reach std one
unfolding empty
one_reached =
    step (start "s" "" 0) (
      append_entry (call_at "aaaaaaaa-1" 5) (message_entry hello) empty_has refl refl refl first_is)

Reach-Good_example : Good std one
Reach-Good_example = Reach-Good std one_reached

empty-IsValid : IsValid empty
unfolding empty
empty-IsValid = blank-IsValid empty refl refl refl

hello-IsNew : IsNew empty (message_entry hello)
hello-IsNew = record { no_id = refl; no_parent = refl; target = λ h. cc }

path_to_leaf-append_leaf_example :
    path_to_leaf one one.leaf_id ≡ path_to_leaf empty empty.leaf_id ++ first ∷ []
path_to_leaf-append_leaf_example =
    path_to_leaf-append_leaf std (call_at "aaaaaaaa-1" 5) empty (message_entry hello) empty-IsValid
      empty_has hello-IsNew refl refl first_is

empty-Journals : Journals std empty
unfolding empty
empty-Journals = (Reach-Good std (start "s" "" 0)).journals

append-Journals_example : (entries one ≡ entries empty ++ first ∷ []) × Journals std one
append-Journals_example =
    append-Journals std (call_at "aaaaaaaa-1" 5) empty (message_entry hello) empty-IsValid empty_has
      hello-IsNew first_is empty-Journals

one-IsValid : IsValid one
one-IsValid = (Reach-Good std one_reached).valid

unfoldable pub second_append : Result Error (Session × Entry)
second_append = append std (call_at "bbbbbbbb-2" 6) one (message_entry asking)

unfoldable pub two : Session
two = (value_or (empty, zero_entry) second_append).0

second : Entry
second = (value_or (empty, zero_entry) second_append).1

second_ok : is_ok second_append ≡ true
unfolding second_append one first_append empty append generate_entry_id lookup has insert
    prepare_entry store_entry validate_entry filled validate_message validate_compaction_reference
second_ok = refl

second_is : append std (call_at "bbbbbbbb-2" 6) one (message_entry asking) ≡ ok (two, second)
unfolding two second second_append
second_is = ok_of (empty, zero_entry) second_append second_ok

one_has : (has "bbbbbbbb-2" one.entries ≡ false) × (known one.entries "aaaaaaaa" ≡ true)
unfolding one first_append empty append generate_entry_id lookup has insert prepare_entry
    store_entry validate_entry filled validate_message validate_compaction_reference
one_has = (refl, refl)

path_to_leaf-append_example : path_to_leaf two "aaaaaaaa" ≡ path_to_leaf one "aaaaaaaa"
path_to_leaf-append_example =
    path_to_leaf-append std (call_at "bbbbbbbb-2" 6) one (message_entry asking) "aaaaaaaa"
      one-IsValid one_has.0 (record { no_id = refl; no_parent = refl; target = λ h. cc }) second_is
      one_has.1

-- Two entries that are each other's parent: the walk ends all the same.
abbrev cyclic : Session
cyclic = record {
  id = "c";
  cwd = "";
  project_id = "";
  name = "";
  title = "";
  entries =
      ("x", record zero_entry { id = "x"; parent_id = "y" })
      ∷ ("y", record zero_entry { id = "y"; parent_id = "x" })
      ∷ [];
  order = "x" ∷ "y" ∷ [];
  labels_by_id = [];
  leaf_id = "x";
  created_at = 0;
  updated_at = 0;
}

path_to_leaf-Walk_example : Walk cyclic.entries [] "x" (path_to_leaf cyclic "x")
path_to_leaf-Walk_example = path_to_leaf-Walk cyclic "x"

pub two-IsValid : IsValid two
two-IsValid =
    append-IsValid std (call_at "bbbbbbbb-2" 6) one (message_entry asking) one-IsValid one_has.0
      (record { no_id = refl; no_parent = refl; target = λ h. cc }) second_is

executable_leaf-known_example : known two.entries (executable_leaf std two two.leaf_id) ≡ true
executable_leaf-known_example =
    executable_leaf-known two two-IsValid std two.leaf_id two-IsValid.leaf

safe_boundary-Nearest_example :
    Nearest std two two.leaf_id (safe_boundary std two two.leaf_id)
    × (accepts std two (safe_boundary std two two.leaf_id) ≡ true)
safe_boundary-Nearest_example =
    safe_boundary-Nearest std two two.leaf_id two-IsValid two-IsValid.leaf

generate_entry_id-fresh_example :
    has (generate_entry_id cyclic.entries (λ k. "aaaaaaaa-1")) cyclic.entries ≡ false
unfolding has
generate_entry_id-fresh_example = generate_entry_id-fresh cyclic.entries (λ k. "aaaaaaaa-1") refl

abbrev crowded : Session
crowded = record cyclic { entries = ("aaaaaaaa", zero_entry) ∷ [] }

generate_entry_id-full_example :
    generate_entry_id crowded.entries (λ k. "aaaaaaaa-1") ≡ "aaaaaaaa-1"
unfolding has
generate_entry_id-full_example =
    generate_entry_id-full crowded.entries (λ k. "aaaaaaaa-1") (λ k h. refl)

loading : Result Error Session
loading = load std empty (first ∷ [])

loading_ok : is_ok loading ≡ true
unfolding loading first first_append empty append generate_entry_id lookup has insert prepare_entry
    store_entry validate_entry filled validate_message validate_compaction_reference load
    load_entries load_entry validate_loaded_history executable_leaf analyze_leaf path_to_leaf
    entries analyze_message_sequence context_messages_for_leaf last_compaction_index
loading_ok = refl

load-IsValid_example : IsValid (value_or empty loading)
unfolding loading
load-IsValid_example =
    load-IsValid std empty (first ∷ []) (ok_of empty (load std empty (first ∷ [])) loading_ok)

abbrev options : ForkOptions
options = record { id = "f"; entry_id = ""; position = ForkPosition.at }

source : Source
source = record { leaf_id = one.leaf_id; fork_at_leaf = none }

forking : Result Error Session
forking = fork std (call_at "ffffffff-3" 9) 8 "n" one options

fork_facts :
    (fork_source one options ≡ ok source)
    × (source.fork_at_leaf ≡ none)
    × All NoLeaf (path_to_leaf one source.leaf_id)
    × (has "ffffffff-3" (copied std 8 "n" one options source).entries ≡ false)
    × (is_ok forking ≡ true)
unfolding fork_source source forking fork copied store_all store_optional with_metadata new
    path_to_leaf one first_append empty append generate_entry_id lookup has insert prepare_entry
    store_entry validate_entry filled validate_message validate_compaction_reference
fork_facts = (refl, refl, (refl, tt), refl, refl)

fork-IsValid_example :
    IsValid (value_or empty forking)
    × (path_to_leaf (value_or empty forking) source.leaf_id ≡ path_to_leaf one source.leaf_id)
unfolding forking
fork-IsValid_example =
    fork-IsValid std (call_at "ffffffff-3" 9) 8 "n" one options one-IsValid fork_facts.0
      fork_facts.1 fork_facts.2 fork_facts.3
      (ok_of empty (fork std (call_at "ffffffff-3" 9) 8 "n" one options) fork_facts.4)

resolve_navigation_target-known_example :
    ((known two.entries two.leaf_id ≡ true)
      × ((r : NavigationResult) × (resolve_navigation_target std two two.leaf_id ≡ ok r)
          × (known two.entries r.leaf_id ≡ true)))
    ⊎ ((known two.entries two.leaf_id ≡ false)
        × (resolve_navigation_target std two two.leaf_id ≡ err (unknown_leaf two.leaf_id)))
resolve_navigation_target-known_example =
    resolve_navigation_target-known two two-IsValid std two.leaf_id

abbrev four : String → ℕ
four t = 4

two_knows : known two.entries "aaaaaaaa" ≡ true
unfolding two one first_append second_append empty append generate_entry_id lookup has insert
    prepare_entry store_entry validate_entry filled validate_message validate_compaction_reference
two_knows = refl

entries_for_branch_summary-IsBranch_example :
    IsBranch
      (path_to_leaf two two.leaf_id)
      (path_to_leaf two "aaaaaaaa")
      (entries_for_branch_summary two "aaaaaaaa")
entries_for_branch_summary-IsBranch_example =
    entries_for_branch_summary-IsBranch two "aaaaaaaa" two-IsValid two_knows

first_kept_entry_id-IsKept_example :
    IsKept four (path_to_leaf two two.leaf_id) (first_kept_entry_id four two 1)
first_kept_entry_id-IsKept_example = first_kept_entry_id-IsKept four two 1
