-- ===== src/Session/Valid/Forked.antt =====
-- internal/agent/runtime/session/session.go: proofs on `Fork`.
use oops.Prelude.{
  ℕ, String, List, [], ◌∷◌, ◌++◌, some, none, true, false, ◌≡◌, ◌⊎◌, inl, inr, refl, sym, ap, ◌∙◌,
  lookup, has, ◌>>=◌, contains, distinct, arith, subst, ok, All, Bool-cases, >>=-eq-ok,
}
use oops.Ai.Types.{Stdlib}
use oops.Session.Entry.{Entry, ForkOptions}
use oops.Session.Tree.{Session, new, path_to_leaf}
use oops.Session.Tree.Chain.{Chain, path_in-eq-Chain}
use oops.Session.Append.{Call, store_entry, prepare_entry}
use oops.Session.Fork.{
  Source, store_optional, fork_source, copied, with_metadata, has_metadata, metadata_entry,
  metadata_first, without_last, fork,
}
use oops.Session.Valid.{IsValid, known}
use oops.Session.Valid.Store.{CanStore, store_entry-IsValid, order, stored_has, kept}
use oops.Session.Valid.Append.{CanStore-of_prepared}
use oops.Session.Valid.Leaf.{known_of_lookup, parent-known}
use oops.Session.Valid.Load.{blank-IsValid}
use oops.Session.Valid.Fork.{Copy, copy_lem, NoLeaf}

-- Moving the last id to the front keeps a valid order.
without_last-snoc : (xs : List String) (k : String) → without_last (xs ++ k ∷ []) ≡ xs
without_last-snoc [] k = refl
without_last-snoc (x ∷ []) k = refl
without_last-snoc (x ∷ y ∷ xs) k = ap (λ l. x ∷ l) (without_last-snoc (y ∷ xs) k)

distinct-cons :
    (k : String) (xs : List String)
    → contains k xs ≡ false
    → distinct xs ≡ true
    → distinct (k ∷ xs) ≡ true
distinct-cons k xs n d = cc (n, d)

module _ (std : Stdlib) where
  reordered-IsValid :
      (f : Session) (e : Entry)
      → IsValid f
      → CanStore f e
      → IsValid
          (record (store_entry std f e) { order = metadata_first e.id (store_entry std f e).order })
  reordered-IsValid f e v c = record {
    keyed = λ id.
        rw (order std f e v c, without_last-snoc f.order e.id)
          (ground (arith, v.keyed id, stored_has std f e v c id));
    once =
        let e_new : contains e.id f.order ≡ false = v.keyed e.id ∙ c.new in
        let rest : without_last (store_entry std f e).order ≡ f.order =
          ap without_last (order std f e v c) ∙ without_last-snoc f.order e.id in
        subst (λ xs. distinct (e.id ∷ xs) ≡ true) (sym rest)
          (distinct-cons e.id f.order e_new v.once);
    own = stored.own;
    named = stored.named;
    rooted = stored.rooted;
    leaf = stored.leaf;
  }
    where
      stored : IsValid (store_entry std f e)
      stored = store_entry-IsValid std f e v c

  fork_source-cases :
      (s : Session) (options : ForkOptions) {source : Source}
      → fork_source s options ≡ ok source
      → source.fork_at_leaf ≡ none
      → (source.leaf_id ≡ s.leaf_id)
        ⊎ ((target : Entry) × (lookup options.entry_id s.entries ≡ some target)
            × ((source.leaf_id ≡ target.id) ⊎ (source.leaf_id ≡ target.parent_id)))
  unfolding fork_source
  fork_source-cases s options h n = ground arith

  -- The leaf whose history a fork copies is in the session.
  fork_source-known :
      (s : Session) (options : ForkOptions) {source : Source}
      → IsValid s
      → fork_source s options ≡ ok source
      → source.fork_at_leaf ≡ none
      → known s.entries source.leaf_id ≡ true
  fork_source-known s options v h n = elim (fork_source-cases s options h n) [
    | inl p ↦ rw p v.leaf
    | inr (target, l, inl p) ↦
        rw (p, v.own options.entry_id target l) (known_of_lookup s v options.entry_id target l).0
    | inr (target, l, inr p) ↦ rw p (parent-known s v options.entry_id target l)
  ]

  -- The session that `Fork` starts from has no entries, and the copies go into it.
  copied-Copy :
      (made : ℕ) (new_id : String) (s : Session) (options : ForkOptions) (source : Source)
      → IsValid s
      → known s.entries source.leaf_id ≡ true
      → source.fork_at_leaf ≡ none
      → All NoLeaf (path_to_leaf s source.leaf_id)
      → (IsValid (copied std made new_id s options source))
        × Chain
            (copied std made new_id s options source).entries
            source.leaf_id
            (path_to_leaf s source.leaf_id)
  unfolding copied store_optional new path_to_leaf
  copied-Copy made new_id s options source v k n no_leaf =
      let (path, ch) = v.rooted source.leaf_id k in
      let same = path_in-eq-Chain ch in
      let f : Session = record (new options.id new_id made) {
        cwd = s.cwd;
        project_id = s.project_id;
        name = s.name;
        title = s.title;
      } in
      let copy : Copy std f source.leaf_id (path_to_leaf s source.leaf_id) =
        copy_lem std f refl (blank-IsValid f refl refl refl) v.own no_leaf
          (subst (λ p. Chain s.entries source.leaf_id p) (sym same) ch) in
      rw n (copy.valid, copy.chain)

  -- The entry with the metadata goes behind the copies, and its id before theirs.
  with_metadata-IsValid :
      (call : Call) (f : Session) {id : String} {path : List Entry} {t : Session}
      → IsValid f
      → Chain f.entries id path
      → has (call.uuid 100) f.entries ≡ false
      → with_metadata std call f ≡ ok t
      → IsValid t × (path_to_leaf t id ≡ path)
  unfolding with_metadata path_to_leaf
  with_metadata-IsValid call f {id} {path} {t} v ch fresh h = elim (Bool-cases (has_metadata f)) [
    | inr none_there ↦
        let e : f ≡ t = ground arith in
        subst (λ x. IsValid x × (path_to_leaf x id ≡ path)) e (v, path_in-eq-Chain ch)
    | inl there ↦
        let h' : (prepare_entry std call f (metadata_entry f) >>= λ e.
        let g = store_entry std f e in ok (record g { order = metadata_first e.id g.order }))
            ≡ ok t =
          ground arith in
        let (e, p, q) =
          >>=-eq-ok (prepare_entry std call f (metadata_entry f))
            (λ e.
              let g = store_entry std f e in ok (record g { order = metadata_first e.id g.order }))
            h' in
        let c : CanStore f e =
          CanStore-of_prepared std call f (metadata_entry f) v fresh
            (record { no_id = refl; no_parent = refl; target = λ y. cc }) p in
        let e' : (record (store_entry std f e) {
          order = metadata_first e.id (store_entry std f e).order;
        })
            ≡ t =
          ground arith in
        subst (λ x. IsValid x × (path_to_leaf x id ≡ path)) e'
          (reordered-IsValid f e v c, path_in-eq-Chain (kept std f e v c ch))
  ]

  -- If `Fork` of a valid session, of no leaf entry and along a path without leaf entries,
  -- returns a session, where the 101st UUID is no id of the copied entries, then that session
  -- is valid and the path to the fork's source in it is the path in the session that was
  -- forked.
  pub fork-IsValid :
      (call : Call) (made : ℕ) (new_id : String) (s : Session) (options : ForkOptions)
      {source : Source} {t : Session}
      → IsValid s
      → fork_source s options ≡ ok source
      → source.fork_at_leaf ≡ none
      → All NoLeaf (path_to_leaf s source.leaf_id)
      → has (call.uuid 100) (copied std made new_id s options source).entries ≡ false
      → fork std call made new_id s options ≡ ok t
      → IsValid t × (path_to_leaf t source.leaf_id ≡ path_to_leaf s source.leaf_id)
  unfolding fork
  fork-IsValid call made new_id s options {source} {t} v f n no_leaf fresh h =
      let k = fork_source-known s options v f n in
      let (valid, chain) = copied-Copy made new_id s options source v k n no_leaf in
      let h' : with_metadata std call (copied std made new_id s options source) ≡ ok t =
        subst (λ r. (r >>= λ x. with_metadata std call (copied std made new_id s options x)) ≡ ok t)
          f h in
      with_metadata-IsValid call (copied std made new_id s options source) valid chain fresh h'
