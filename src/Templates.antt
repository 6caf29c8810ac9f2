-- ===== src/Templates.antt =====
-- backend/src/modules/templates/templates.routes.ts: custom templates and their versions. The order
-- of a field is a natural number here, and what the body carries for an id, a label or a type is text.
pub mod Fields
pub mod History
use safe_pass.Base.{
  ℕ, suc, ◌+◌, Bool, true, false, ◌&&◌, ◌||◌, not, Option, none, some, List, [], ◌∷◌, ◌++◌, ◌==◌,
  leb, find, filter, any, count, update, delete, map, length, max, if◌then◌else◌,
}
use safe_pass.Auth.Guard.{codes, has}
use safe_pass.Envelope.Base64.{Text}
use safe_pass.Errors.{
  Result, ok, api, internal, not_found, validation_failed, template_field_duplicate,
  template_field_in_use, guard, required, ◌>>=◌, ◌>>◌,
}
use safe_pass.Json.{trim_start, trim_end, to_lower}
use safe_pass.Store.{Secret}
use safe_pass.Tables.{text_eq}

-- `FIELD_TYPES`
abbrev pub field_types : List Text
field_types =
    codes "text"
    ∷ codes "password"
    ∷ codes "email"
    ∷ codes "url"
    ∷ codes "number"
    ∷ codes "date"
    ∷ codes "totp"
    ∷ codes "multiline"
    ∷ []

pub record RawField : Type 0 where
  pub id : Text
  pub label : Text
  pub type : Text
  pub required : Bool
  pub sensitive : Bool
  pub order : Option ℕ

pub record Field : Type 0 where
  pub id : Text
  pub label : Text
  pub type : Text
  pub required : Bool
  pub sensitive : Bool
  pub order : ℕ

unfoldable pub trim : Text → Text
unfolding trim_start trim_end
trim t = trim_end (trim_start t)

abbrev or_index : Option ℕ → ℕ → ℕ
or_index none index = index
or_index (some order) index = order

-- The body of the loop of `parseFields`.
unfoldable pub parse_field : ℕ → RawField → Result Field
unfolding trim
parse_field index f = do
  guard (not (text_eq (trim f.id) [] || text_eq (trim f.label) [])) (api validation_failed)
  guard (has field_types f.type) (api validation_failed)
  ok (record {
    id = trim f.id;
    label = trim f.label;
    type = f.type;
    required = f.required;
    sensitive = f.sensitive;
    order = or_index f.order index;
  })

unfoldable pub parse_all : ℕ → List RawField → Result (List Field)
unfolding parse_field
parse_all index [] = ok []
parse_all index (f ∷ fs) = do
  field ← parse_field index f
  fields ← parse_all (suc index) fs
  ok (field ∷ fields)

-- The members of `new Set(texts)`, in the order of their first occurrence.
unfoldable pub to_set : List Text → List Text
to_set [] = []
to_set (t ∷ ts) = t ∷ delete (text_eq t) (to_set ts)

-- A stable sort by `order`.
unfoldable pub insert : Field → List Field → List Field
insert f [] = f ∷ []
insert f (g ∷ gs) = let rest = insert f gs in if leb f.order g.order then f ∷ g ∷ gs else g ∷ rest

unfoldable pub sort : List Field → List Field
unfolding insert
sort [] = []
sort (f ∷ fs) = insert f (sort fs)

abbrev pub lower_label : Field → Text
lower_label f = map to_lower f.label

abbrev is_empty {ℓ} : {A : Type ℓ} → List A → Bool
is_empty [] = true
is_empty (x ∷ xs) = false

-- `parseFields`; none if the body has no array.
unfoldable pub parse_fields : Option (List RawField) → Result (List Field)
unfolding parse_all to_set sort
parse_fields raw = do
  items ← required raw (api validation_failed)
  guard (not (is_empty items)) (api validation_failed)
  fields ← parse_all 0 items
  guard (length (to_set (map lower_label fields)) == length (map lower_label fields))
      (api template_field_duplicate)
  guard
      (length (to_set (map (λ (f : Field). f.id) fields))
        == length (map (λ (f : Field). f.id) fields))
      (api template_field_duplicate)
  ok (sort fields)

pub data TemplateKind : Type 0 where
  builtin custom : TemplateKind

pub record Template : Type 0 where
  pub id : ℕ
  pub owner_id : Option ℕ
  pub kind : TemplateKind
  pub current_version_id : Option ℕ

pub record TemplateVersion : Type 0 where
  pub id : ℕ
  pub template_id : ℕ
  pub version : ℕ
  pub name : Text
  pub fields : List Field

pub record TemplateDb : Type 0 where
  pub templates : List Template
  pub versions : List TemplateVersion
  pub secrets : List Secret

abbrev is_custom : TemplateKind → Bool
is_custom custom = true
is_custom builtin = false

abbrev is_own : ℕ → ℕ → Template → Bool
is_own id user_id t =
    t.id == id && elim t.owner_id [ none ↦ false | some o ↦ o == user_id ] && is_custom t.kind

-- `requireOwnTemplate`
unfoldable pub require_own_template : TemplateDb → ℕ → ℕ → Result Template
require_own_template db id user_id =
    required (find (is_own id user_id) db.templates) (api not_found)

-- `templateVersion.create`: its keys are the id, and the template with the number.
unfoldable pub insert_version : TemplateVersion → TemplateDb → Result TemplateDb
insert_version v db = do
  guard (not (any (λ x. x.id == v.id) db.versions)) internal
  guard (not (any (λ x. x.template_id == v.template_id && x.version == v.version) db.versions))
      internal
  ok (record db { versions = v ∷ db.versions })

abbrev pub set_current : ℕ → ℕ → TemplateDb → TemplateDb
set_current template_id version_id db = record db {
  templates =
      update (λ t. t.id == template_id) (λ t. record t { current_version_id = some version_id })
        db.templates;
}

-- `POST /templates`, with the ids that the database client draws.
unfoldable pub create_template :
    TemplateDb → ℕ → ℕ → ℕ → Text → Option (List RawField) → Result TemplateDb
unfolding trim insert_version
create_template db template_id version_id user_id name raw = do
  guard (not (text_eq (trim name) [])) (api validation_failed)
  fields ← parse_fields raw
  guard (not (any (λ t. t.id == template_id) db.templates)) internal
  db1 ←
      insert_version
        (record {
          id = version_id;
          template_id = template_id;
          version = 1;
          name = trim name;
          fields = fields;
        })
        (record db {
          templates =
              record {
                id = template_id;
                owner_id = some user_id;
                kind = custom;
                current_version_id = none;
              }
              ∷ db.templates;
        })
  ok (set_current template_id version_id db1)

-- The number of a template's newest version, 0 if it has none.
unfoldable pub newest : ℕ → List TemplateVersion → ℕ
newest template_id [] = 0
newest template_id (v ∷ vs) =
    let rest = newest template_id vs in
    if v.template_id == template_id then max v.version rest else rest

-- `PUT /templates/:templateId`
unfoldable pub edit_template :
    TemplateDb → ℕ → ℕ → ℕ → Text → Option (List RawField) → Result TemplateDb
unfolding require_own_template trim insert_version newest
edit_template db template_id version_id user_id name raw = do
  _ ← require_own_template db template_id user_id
  guard (not (text_eq (trim name) [])) (api validation_failed)
  fields ← parse_fields raw
  db1 ←
      insert_version
        (record {
          id = version_id;
          template_id = template_id;
          version = newest template_id db.versions + 1;
          name = trim name;
          fields = fields;
        })
        db
  ok (set_current template_id version_id db1)

-- A secret that was written under a version of the template.
abbrev pub uses : ℕ → TemplateDb → Secret → Bool
uses template_id db s =
    any (λ v. v.id == s.template_version_id && v.template_id == template_id) db.versions

-- `DELETE /templates/:templateId`; the versions go with the template.
unfoldable pub delete_template : TemplateDb → ℕ → ℕ → Result TemplateDb
unfolding require_own_template
delete_template db template_id user_id = do
  _ ← require_own_template db template_id user_id
  guard (count (uses template_id db) db.secrets == 0) (api template_field_in_use)
  ok (record db {
    templates = delete (λ t. t.id == template_id) db.templates;
    versions = delete (λ v. v.template_id == template_id) db.versions;
  })

abbrev value_of : List (Text × Text) → Text → Text
value_of [] id = []
value_of ((k, v) ∷ rest) id = let later = value_of rest id in if text_eq k id then v else later

-- The ids of the fields that any version of the template has had.
unfoldable pub known_ids : ℕ → List TemplateVersion → List Text
known_ids template_id [] = []
known_ids template_id (v ∷ vs) =
    let rest = known_ids template_id vs in
    if v.template_id == template_id then map (λ (f : Field). f.id) v.fields ++ rest else rest

-- `POST /templates/:templateId/impact`: the fields that go, and the number of secrets with a value.
unfoldable pub impact : TemplateDb → ℕ → ℕ → Option (List RawField) → Result (List Text × ℕ)
unfolding require_own_template known_ids to_set
impact db template_id user_id raw = do
  _ ← require_own_template db template_id user_id
  proposed ← parse_fields raw
  let removed =
      filter (λ id. not (any (λ (f : Field). text_eq f.id id) proposed))
        (to_set (known_ids template_id db.versions))
  ok (
    removed,
    count
        (λ s.
          uses template_id db s
          && any (λ id. not (text_eq (value_of s.field_values id) [])) removed)
        db.secrets,
  )
