-- ===== src/Tests/Templates.antt =====
-- Runs of the template routes.
use safe_pass.Base.{
  ℕ, ◌≡◌, refl, true, false, none, some, List, [], ◌∷◌, any, find, filter, delete, count, ◌==◌, All,
}
use safe_pass.Auth.Guard.{codes, has}
use safe_pass.Errors.{guard, required, ◌>>=◌, ◌>>◌}
use safe_pass.Json.{to_lower}
use safe_pass.Tables.{text_eq}
use safe_pass.Templates.{
  RawField, Field, TemplateVersion, TemplateDb, custom, parse_fields, lower_label,
}
use safe_pass.Templates.Fields.{IsSorted, IsField, IsKeyed, asked, parse_fields_sound}
use safe_pass.Templates.History.{
  TemplateRequest, deletion, edition, serve_templates, version_row, serve_templates-keeps,
}
use safe_pass.Tests.{secret}

abbrev raw_pin : RawField
raw_pin = record {
  id = codes "pin ";
  label = codes "PIN";
  type = codes "password";
  required = true;
  sensitive = true;
  order = some 2;
}

abbrev raw_note : RawField
raw_note = record {
  id = codes "note";
  label = codes "Note";
  type = codes "multiline";
  required = false;
  sensitive = false;
  order = none;
}

abbrev note : Field
note = record {
  id = codes "note";
  label = codes "Note";
  type = codes "multiline";
  required = false;
  sensitive = false;
  order = 1;
}

abbrev pin : Field
pin = record {
  id = codes "pin";
  label = codes "PIN";
  type = codes "password";
  required = true;
  sensitive = true;
  order = 2;
}

abbrev parsed : List Field
parsed = note ∷ pin ∷ []

parse_fields_sound_example :
    (count (λ f. f.order == 2) parsed
      ≡ count (λ f. f.order == 2) (asked 0 (raw_pin ∷ raw_note ∷ [])))
    × IsSorted parsed
    × All IsField parsed
    × IsKeyed (λ f. f.id) parsed
    × IsKeyed lower_label parsed
unfolding parse_fields required guard ◌>>=◌ ◌>>◌ text_eq has delete filter to_lower
parse_fields_sound_example =
    parse_fields_sound (raw_pin ∷ raw_note ∷ []) parsed (λ f. f.order == 2) refl

abbrev version : TemplateVersion
version = record { id = 50; template_id = 90; version = 1; name = codes "Door"; fields = parsed }

abbrev db : TemplateDb
db = record {
  templates =
      record { id = 90; owner_id = some 1; kind = custom; current_version_id = some 50 } ∷ [];
  versions = version ∷ [];
  secrets = secret ∷ [];
}

abbrev history : List (ℕ × TemplateRequest)
history =
    (1, edition 90 51 (codes "Gate") (some (raw_note ∷ [])))
    ∷ (1, deletion 90)
    ∷ (2, deletion 90)
    ∷ []

serve_templates-keeps_example : version_row 50 (serve_templates history db) ≡ some version
unfolding find any
serve_templates-keeps_example = serve_templates-keeps version history db refl refl
