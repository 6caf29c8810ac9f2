-- ===== src/Templates/History.antt =====
-- A version that a secret was written under stays as it was.
use safe_pass.Base.{
  ℕ, ◌≡◌, refl, Bool, true, false, ◌&&◌, Option, some, List, [], ◌∷◌, ◌==◌, find, any-false, any,
  count, count-zero_All, delete, filter, All, All-find, Bool-cases, inl, inr, arith,
}
use mathlib.Core.Path.{subst}
use safe_pass.Envelope.Base64.{Text}
use safe_pass.Errors.{Result, ok, err, ok-injective, Result-cases, on_bind, on_guard}
use safe_pass.Store.{Secret}
use safe_pass.Templates.{
  TemplateDb, TemplateVersion, RawField, create_template, edit_template, delete_template,
  insert_version, uses,
}

-- The requests of the template routes that write, with the ids that are drawn for new rows.
pub data TemplateRequest : Type 0 where
  creation : ℕ → ℕ → Text → Option (List RawField) → TemplateRequest
  edition : ℕ → ℕ → Text → Option (List RawField) → TemplateRequest
  deletion : ℕ → TemplateRequest

unfoldable pub handle_template : ℕ → TemplateRequest → TemplateDb → Result TemplateDb
handle_template user (creation t v name raw) db = create_template db t v user name raw
handle_template user (edition t v name raw) db = edit_template db t v user name raw
handle_template user (deletion t) db = delete_template db t user

abbrev after : Result TemplateDb → TemplateDb → TemplateDb
after (ok db') db = db'
after (err e) db = db

-- The requests of any users, one after another.
unfoldable pub serve_templates : List (ℕ × TemplateRequest) → TemplateDb → TemplateDb
unfolding handle_template
serve_templates [] db = db
serve_templates ((user, r) ∷ rest) db = serve_templates rest (after (handle_template user r db) db)

-- The row of the version with the id.
abbrev pub version_row : ℕ → TemplateDb → Option TemplateVersion
version_row id db = find (λ v. v.id == id) db.versions

find_fresh :
    (x v : TemplateVersion) (vs : List TemplateVersion)
    → any (λ y. y.id == x.id) vs ≡ false
    → find (λ y. y.id == v.id) vs ≡ some v
    → find (λ y. y.id == v.id) (x ∷ vs) ≡ some v
unfolding find
find_fresh x v vs fresh found = elim (Bool-cases (x.id == v.id)) [
  | inl clash ↦ absurd (
      ground (
        arith,
        All-find (λ y. (y.id == x.id) ≡ false) (λ y. y.id == v.id) vs (any-false _ vs fresh) found,
      ))
  | inr other ↦ rw other found
]

find-delete :
    (q : TemplateVersion → Bool) (v : TemplateVersion) (id : ℕ) (vs : List TemplateVersion)
    → q v ≡ false
    → find (λ y. y.id == id) vs ≡ some v
    → find (λ y. y.id == id) (delete q vs) ≡ some v
unfolding find delete filter
find-delete q v id [] kept e = cc
find-delete q v id (x ∷ xs) kept e = elim (Bool-cases (x.id == id)) [
  | inl hit ↦
      let same : x ≡ v = ground arith in
      let stays : q x ≡ false = rw (same, kept) refl in ground arith
  | inr miss ↦ let rest = find-delete q v id xs kept (ground arith) in ground (arith, rest)
]

module _ {A : Type 0} where
  find-any :
      (p q : A → Bool) (xs : List A) {v : A} → find p xs ≡ some v → q v ≡ true → any q xs ≡ true
  unfolding find any
  find-any p q [] e h = cc
  find-any p q (x ∷ xs) {v} e h = elim (Bool-cases (p x)) [
    | inl hit ↦
        let same : x ≡ v = ground arith in let met : q x ≡ true = rw (same, h) refl in ground arith
    | inr miss ↦ let rest = find-any p q xs {v = v} (ground arith) h in ground (arith, rest)
  ]

  any_none :
      (p q : A → Bool) (xs : List A)
      → any p xs ≡ true
      → All (λ x. q x ≡ false) xs
      → ((x : A) → p x ≡ true → q x ≡ true)
      → ⊥
  unfolding any
  any_none p q [] some' h imp = cc
  any_none p q (x ∷ xs) some' (h, hs) imp = elim (Bool-cases (p x)) [
    | inl hit ↦ let both = imp x hit in cc
    | inr miss ↦ any_none p q xs (ground arith) hs imp
  ]

-- A template of which no version is in use is not the one of a version that is.
unused_template :
    (v : TemplateVersion) (db : TemplateDb) (t : ℕ)
    → version_row v.id db ≡ some v
    → any (λ s. s.template_version_id == v.id) db.secrets ≡ true
    → count (uses t db) db.secrets ≡ 0
    → (v.template_id == t) ≡ false
unused_template v db t found used none' = elim (Bool-cases (v.template_id == t)) [
  | inr other ↦ other
  | inl own ↦ absurd (
      any_none (λ (s : Secret). s.template_version_id == v.id) (uses t db) db.secrets used
        (count-zero_All (uses t db) db.secrets none')
        (λ s hit.
          find-any (λ (x : TemplateVersion). x.id == v.id)
            (λ x. x.id == s.template_version_id && x.template_id == t) db.versions found
            (ground arith)))
]

insert_version-eq-ok :
    (x : TemplateVersion) (db : TemplateDb) {db' : TemplateDb}
    → insert_version x db ≡ ok db'
    → (any (λ y. y.id == x.id) db.versions ≡ false)
      × (record db { versions = x ∷ db.versions } ≡ db')
unfolding insert_version
insert_version-eq-ok x db e =
    on_guard _ _ _ e λ fresh e1. on_guard _ _ _ e1 λ _ e2. (ground arith, ok-injective e2)

module _ (v : TemplateVersion) where
  -- The version is on record, and a secret was written under it.
  abbrev IsWritten : TemplateDb → Type 0
  IsWritten db =
      (version_row v.id db ≡ some v) × (any (λ s. s.template_version_id == v.id) db.secrets ≡ true)

  insert_version-IsWritten :
      (x : TemplateVersion) (db : TemplateDb) {db' : TemplateDb}
      → IsWritten db
      → insert_version x db ≡ ok db'
      → IsWritten db'
  insert_version-IsWritten x db (found, used) e =
      let (fresh, made) = insert_version-eq-ok x db e in
      subst IsWritten made (find_fresh x v db.versions fresh found, used)

  handle_template-IsWritten :
      (user : ℕ) (r : TemplateRequest) (db : TemplateDb) {db' : TemplateDb}
      → IsWritten db
      → handle_template user r db ≡ ok db'
      → IsWritten db'
  unfolding handle_template create_template edit_template delete_template
  handle_template-IsWritten user (creation t id name raw) db w e = on_guard _ _ _ e λ _ e1.
      on_bind _ _ e1 λ _ _ e2. on_guard _ _ _ e2 λ _ e3.
        on_bind _ _ e3
          λ db1 made e4. subst IsWritten (ok-injective e4) (insert_version-IsWritten _ _ w made)
  handle_template-IsWritten user (edition t id name raw) db w e = on_bind _ _ e λ _ _ e1.
      on_guard _ _ _ e1 λ _ e2. on_bind _ _ e2 λ _ _ e3.
        on_bind _ _ e3
          λ db1 made e4. subst IsWritten (ok-injective e4) (insert_version-IsWritten _ _ w made)
  handle_template-IsWritten user (deletion t) db (found, used) e = on_bind _ _ e λ _ _ e1.
      on_guard _ _ _ e1 λ unused e2.
        let kept : (v.template_id == t) ≡ false =
          unused_template v db t found used (ground arith) in
        subst IsWritten (ok-injective e2)
          (find-delete (λ x. x.template_id == t) v v.id db.versions kept found, used)

-- A version under which a secret was written is still on record, unchanged, after any sequence of
-- creations, editions and deletions of templates by any users.
pub serve_templates-keeps :
    (v : TemplateVersion) (history : List (ℕ × TemplateRequest)) (db : TemplateDb)
    → version_row v.id db ≡ some v
    → any (λ s. s.template_version_id == v.id) db.secrets ≡ true
    → version_row v.id (serve_templates history db) ≡ some v
unfolding serve_templates
serve_templates-keeps v [] db found used = found
serve_templates-keeps v ((user, r) ∷ rest) db found used =
    elim (Result-cases (handle_template user r db)) [
      | inl (d, done) ↦
          let (found', used') = handle_template-IsWritten v user r db (found, used) done in
          rw (done, serve_templates) (serve_templates-keeps v rest d found' used')
      | inr (x, failed) ↦ rw (failed, serve_templates) (serve_templates-keeps v rest db found used)
    ]
