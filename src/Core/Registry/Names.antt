-- ===== src/Core/Registry/Names.antt =====
-- internal/agent/core/tool_registry.go: proofs on the definitions that a registry hands out.
use oops.Prelude.{
  String, Option, none, some, List, [], ◌∷◌, ◌++◌, map, Bool, true, false, ◌≡◌, refl, sym, ap, ap₂,
  ◌∙◌, subst, arith, Dict, lookup, insert, has, has-insert, lookup-insert, contains,
  contains-append, distinct, distinct-snoc, str_eq, str_eq_self, eq_iff, Bool-cases, inl, inr, ok,
  >>=-eq-ok, fail_if,
}
use mathlib.Core.List.{append_assoc, append-nil}
use oops.Core.Registry.{
  ToolDefinition, RegisteredTool, Registry, empty, compile_schema, with_tool, register,
  register_all, new_registry, definition_at, definitions, duplicate_tool, requires_name,
}

map-snoc :
    {A B : Type 0} (f : A → B) (l : List A) (x : A) → map f (l ++ x ∷ []) ≡ map f l ++ f x ∷ []
map-snoc f [] x = refl
map-snoc f (y ∷ l) x = ap (λ r. f y ∷ r) (map-snoc f l x)

fail_if-ok : {E : Type 0} (b : Bool) (e : E) (u : Unit {0}) → fail_if b e ≡ ok u → b ≡ false
fail_if-ok true e u h = cc
fail_if-ok false e u h = refl

module _ {Tool Schema : Type 0} (definition : Tool → ToolDefinition)
    (compile : String → Option Schema) where
  abbrev R : Type 0
  R = Registry Tool Schema

  -- What holds of a registry that was made from tools.
  record Holds (r : R) (tools : List Tool) : Type 0 where
    defs : definitions definition compile r ≡ map definition tools
    keyed : (k : String) → contains k r.order ≡ has k r.tools
    once : distinct r.order ≡ true

  register_inv :
      (t : Tool) (r after : R)
      → register definition compile (some t) r ≡ ok after
      → (has (definition t).name r.tools ≡ false)
        × ((schema : Option Schema) × (after ≡ with_tool definition compile r t schema))
  unfolding register
  register_inv t r after h =
      let (_, _, h1) = >>=-eq-ok (fail_if (str_eq (definition t).name "") requires_name) _ h in
      let (u, new, h2) =
        >>=-eq-ok (fail_if (has (definition t).name r.tools) (duplicate_tool (definition t).name)) _
          h1 in
      let (schema, _, h3) = >>=-eq-ok (compile_schema definition compile (definition t)) _ h2 in
      let made : with_tool definition compile r t schema ≡ after = cc in
      (
        fail_if-ok (has (definition t).name r.tools) (duplicate_tool (definition t).name) u new,
        (schema, sym made),
      )

  item_same :
      (m : Dict (RegisteredTool Tool Schema)) (n k : String) (item : RegisteredTool Tool Schema)
      → has n m ≡ false
      → has k m ≡ true
      → definition_at definition compile (insert n item m) k ≡ definition_at definition compile m k
  item_same m n k item h g =
      let other : str_eq n k ≡ false = elim (Bool-cases (str_eq n k)) [
        | inl e ↦
            let same : has n m ≡ has k m = ap (λ x. has x m) ((eq_iff n k).0 e) in cc (h, g, same)
        | inr e ↦ e
      ] in
      let at : lookup k (insert n item m) ≡ lookup k m =
        lookup-insert n k item m ∙ simp other refl in
      ap
        (λ (o : Option (RegisteredTool Tool Schema)). elim o as (λ _. ToolDefinition) [
          | none ↦ record { name = ""; description = ""; parameters = "" }
          | some x ↦ x.definition
        ])
        at

  map_same :
      (m : Dict (RegisteredTool Tool Schema)) (n : String) (item : RegisteredTool Tool Schema)
      (ks : List String)
      → has n m ≡ false
      → ((k : String) → contains k ks ≡ true → has k m ≡ true)
      → map (definition_at definition compile (insert n item m)) ks
        ≡ map (definition_at definition compile m) ks
  map_same m n item [] h g = refl
  map_same m n item (k ∷ ks) h g =
      ap₂ (λ x l. x ∷ l) (item_same m n k item h (g k (ground (arith, eq_iff k k))))
        (map_same m n item ks h (λ j q. g j (ground (arith, q))))

  item_new :
      (m : Dict (RegisteredTool Tool Schema)) (n : String) (item : RegisteredTool Tool Schema)
      → definition_at definition compile (insert n item m) n ≡ item.definition
  item_new m n item =
      let at : lookup n (insert n item m) ≡ some item =
        lookup-insert n n item m ∙ simp (str_eq_self n) refl in
      ap
        (λ (o : Option (RegisteredTool Tool Schema)). elim o as (λ _. ToolDefinition) [
          | none ↦ record { name = ""; description = ""; parameters = "" }
          | some x ↦ x.definition
        ])
        at

  with_tool-Holds :
      (r : R) (tools : List Tool) (t : Tool) (schema : Option Schema)
      → Holds r tools
      → has (definition t).name r.tools ≡ false
      → Holds (with_tool definition compile r t schema) (tools ++ t ∷ [])
  unfolding definitions
  with_tool-Holds r tools t schema h new =
      let n = (definition t).name in
      let item : RegisteredTool Tool Schema = record {
        tool = t;
        definition = definition t;
        schema = schema;
      } in
      record {
        defs =
            map-snoc (definition_at definition compile (insert n item r.tools)) r.order n
            ∙ ap₂ (λ l x. l ++ x ∷ [])
                (map_same r.tools n item r.order new (λ k q. sym (h.keyed k) ∙ q) ∙ h.defs)
                (item_new r.tools n item)
            ∙ sym (map-snoc definition tools t);
        keyed = λ k.
            ground
              (arith, contains-append k r.order (n ∷ []), h.keyed k, has-insert n k item r.tools);
        once = distinct-snoc r.order n h.once (h.keyed n ∙ new);
      }

  register_nil : (r after : R) → (register definition compile none r ≡ ok after) → ⊥
  unfolding register
  register_nil r after h = cc

  register_all-Holds :
      (l : List (Option Tool)) (r last : R) (tools : List Tool)
      → Holds r tools
      → register_all definition compile l r ≡ ok last
      → (more : List Tool) × (l ≡ map (λ t. some t) more) × Holds last (tools ++ more)
  unfolding register_all
  register_all-Holds [] r last tools h e =
      let same : r ≡ last = cc in
      (
        [],
        refl,
        subst (λ x. Holds x (tools ++ [])) same (subst (Holds r) (sym (append-nil tools)) h),
      )
  register_all-Holds (none ∷ l) r last tools h e =
      let (mid, k, _) =
        >>=-eq-ok (register definition compile none r) (register_all definition compile l) e in
      absurd (register_nil r mid k)
  register_all-Holds (some t ∷ l) r last tools h e =
      let (mid, k, e2) =
        >>=-eq-ok (register definition compile (some t) r) (register_all definition compile l) e in
      let (new, (schema, made)) = register_inv t r mid k in
      let now =
        subst (λ x. Holds x (tools ++ t ∷ [])) (sym made)
          (with_tool-Holds r tools t schema h new) in
      let (more, p, done) = register_all-Holds l mid last (tools ++ t ∷ []) now e2 in
      (t ∷ more, ap (λ x. some t ∷ x) p, subst (Holds last) (append_assoc tools (t ∷ []) more) done)

  empty-Holds : Holds (empty definition compile) []
  unfolding definitions has lookup
  empty-Holds = record { defs = refl; keyed = λ k. refl; once = refl }

  -- If `NewRegistry` returns a registry, none of the tools is nil, `Definitions` gives the
  -- definitions of the tools in their order, the names are distinct, and the map holds exactly
  -- these names.
  pub new_registry-definitions :
      (l : List (Option Tool)) (r : R)
      → new_registry definition compile l ≡ ok r
      → (tools : List Tool) × (l ≡ map (λ t. some t) tools)
        × (definitions definition compile r ≡ map definition tools)
        × (distinct r.order ≡ true)
        × ((k : String) → contains k r.order ≡ has k r.tools)
  unfolding new_registry
  new_registry-definitions l r h =
      let (tools, p, done) = register_all-Holds l (empty definition compile) r [] empty-Holds h in
      (tools, p, done.defs, done.once, done.keyed)
