-- ===== src/Kb/Registry/Query.antt =====
-- What the catalog of knowledge bases answers.
use mathlib.Core.List.{append_assoc, append-nil}
use tei_nlp_converter.Base.{
  String, Bool, false, Option, none, some, List, [], ◌∷◌, ◌++◌, Dict, get, ◌==◌, string_key,
  if◌then◌else◌, keep, ◌||◌, members, append_to, members-append_to, if-append, ◌≡◌, ◌≢◌, refl, sym,
  ◌∙◌, subst, Bool-cases, inl, inr, ==_iff, ==_ne, All, ap,
}
use tei_nlp_converter.Kb.Registry.{
  KbMetadata, KbCatalog, empty_catalog, add_types, add, candidates, query,
}

-- `t in types`, and that none stands twice.
abbrev pub has : String → List String → Bool
has t [] = false
has t (x ∷ xs) = (x == t) || has t xs

abbrev pub AreDistinct : List String → Type 0
AreDistinct [] = Unit
AreDistinct (x ∷ xs) = (has x xs ≡ false) × AreDistinct xs

module _ {ℓ} {R : Type ℓ} where
  pub add_all : List (KbMetadata R) → KbCatalog R → KbCatalog R
  unfolding add
  add_all [] c = c
  add_all (m ∷ ms) c = add_all ms (add m c)

  members-add_types :
      (t : String) (types : List String) (m : KbMetadata R) (d : Dict String (List (KbMetadata R)))
      → AreDistinct types
      → members (get t (add_types types m d))
        ≡ members (get t d) ++ (if has t types then m ∷ [] else [])
  unfolding add_types
  members-add_types t [] m d h = sym (append-nil (members (get t d)))
  members-add_types t (x ∷ types) m d h =
      members-add_types t types m (append_to x m d) h.1
      ∙ rw (members-append_to t x m d) (
          append_assoc (members (get t d)) (if x == t then m ∷ [] else [])
            (if has t types then m ∷ [] else [])
          ∙ ap (λ ms. members (get t d) ++ ms) once)
    where
      once :
          (if x == t then m ∷ [] else []) ++ (if has t types then m ∷ [] else [])
          ≡ (if (x == t) || has t types then m ∷ [] else [])
      once = elim (Bool-cases (x == t)) [
        | inl same ↦
            let absent : has t types ≡ false =
              subst (λ t. has t types ≡ false) ((==_iff x t).0 same) h.0 in
            rw (same, absent) refl
        | inr other ↦ rw other refl
      ]

  -- The metadata of a domain, and of a type of entity.
  abbrev pub of_domain : String → KbMetadata R → Bool
  of_domain d m = m.domain == d

  abbrev pub of_type : String → KbMetadata R → Bool
  of_type t m = has t m.entity_types

  members-add_all_domain :
      (d : String) (ms : List (KbMetadata R)) (c : KbCatalog R)
      → members (get d (add_all ms c).by_domain)
        ≡ members (get d c.by_domain) ++ keep (of_domain d) ms
  unfolding add_all keep
  members-add_all_domain d [] c = sym (append-nil (members (get d c.by_domain)))
  members-add_all_domain d (m ∷ ms) c =
      members-add_all_domain d ms (add m c)
      ∙ rw (members-append_to d m.domain m c.by_domain) (
          append_assoc (members (get d c.by_domain)) (if m.domain == d then m ∷ [] else [])
            (keep (of_domain d) ms)
          ∙ ap (λ ms'. members (get d c.by_domain) ++ ms')
              (if-append (m.domain == d) m (keep (of_domain d) ms)))

  members-add_all_type :
      (t : String) (ms : List (KbMetadata R)) (c : KbCatalog R)
      → All (λ m. AreDistinct m.entity_types) ms
      → members (get t (add_all ms c).by_entity_type)
        ≡ members (get t c.by_entity_type) ++ keep (of_type t) ms
  unfolding add_all keep
  members-add_all_type t [] c h = sym (append-nil (members (get t c.by_entity_type)))
  members-add_all_type t (m ∷ ms) c h =
      members-add_all_type t ms (add m c) h.1
      ∙ rw (members-add_types t m.entity_types m c.by_entity_type h.0) (
          append_assoc (members (get t c.by_entity_type))
            (if has t m.entity_types then m ∷ [] else []) (keep (of_type t) ms)
          ∙ ap (λ ms'. members (get t c.by_entity_type) ++ ms')
              (if-append (has t m.entity_types) m (keep (of_type t) ms)))

  -- `if trusted_only`
  abbrev pub trusted_of : Bool → List (KbMetadata R) → List (KbMetadata R)
  trusted_of trusted_only ms = if trusted_only then keep (λ m. m.trusted) ms else ms

  -- Once metadata are added to an empty catalog, each with distinct types: a query for a domain, which is
  -- not empty, gives those of that domain in the order of addition, also where one was added again
  -- under its `kb_id`; a query for a type that is not empty, without a domain, gives those that have the type.
  -- If only trusted ones are asked for, the others are left out.
  pub query-add_all :
      (ms : List (KbMetadata R)) (name : String) (entity_type : Option String) (trusted_only : Bool)
      → All (λ m. AreDistinct m.entity_types) ms
      → name ≢ ""
      → (query (some name) entity_type trusted_only (add_all ms empty_catalog)
          ≡ trusted_of trusted_only (keep (of_domain name) ms))
        × (query none (some name) trusted_only (add_all ms empty_catalog)
            ≡ trusted_of trusted_only (keep (of_type name) ms))
  unfolding query candidates get
  query-add_all ms name entity_type trusted_only distinct given_name =
      let named = ==_ne name "" given_name in
      (
        rw (named, members-add_all_domain name ms empty_catalog) refl,
        rw (named, members-add_all_type name ms empty_catalog distinct) refl,
      )
