-- ===== src/Tests/Getters.antt =====
-- The getters of src/ut_kvp.c at concrete documents.
use ut_control.Base.{
  ℕ, ◌<◌, ◌≡◌, ◌↔◌, refl, true, some, List, [], ◌∷◌, length, arith, take, replicate,
}
use ut_control.CString.{Text, strcmp_eq, to_lower}
use ut_control.CString.Buffer.{read_string}
use ut_control.CString.Number.{digits_value}
use ut_control.CString.Spelled.{hex_text}
use ut_control.Kvp.Key.{dot_to_slash}
use ut_control.Kvp.Instance.{Instance, success}
use ut_control.Kvp.Nodes.{ut_kvp_get_string_field}
use ut_control.Kvp.Nodes.Strings.{Leads, string_field}
use ut_control.Kvp.Fields.{ut_kvp_get_bool_field}
use ut_control.Kvp.Fields.Texts.{Holds, AllRead, bool_field, number_field, base16}
use ut_control.Kvp.Bytes.{Output, collect, ut_kvp_get_data_bytes}
use ut_control.Kvp.Bytes.Collect.{Collected, collect-Collected}
use ut_control.Kvp.Bytes.Spelled.{Spelling, decimal, hex, spelled_text, data_bytes-spelled}
use ut_control.Tests.Yaml.{mapping, scalar, yaml, holding}

abbrev key : Text
key = b'a' ∷ b'.' ∷ b'b' ∷ []

-- A document with this text at the key a.b.
abbrev at_key : Text → Instance yaml
at_key text = holding (mapping ((b'a' ∷ b'/' ∷ b'b' ∷ [], text) ∷ []))

abbrev TextHere : Text → Type 0
TextHere text = Holds yaml (at_key text) key text

abbrev LeadsHere : Text → Type 0
LeadsHere text = Leads yaml (at_key text) key (scalar text)

holds : (text : Text) → length text < 256 → TextHere text
unfolding dot_to_slash strcmp_eq
holds text h = record {
  doc = mapping ((b'a' ∷ b'/' ∷ b'b' ∷ [], text) ∷ []);
  valid = refl;
  opened = refl;
  key_text = (omega arith, (omega arith, (omega arith, tt)));
  key_fits = omega arith;
  conversions = 0;
  scan = refl;
  text_fits = h;
}

leads : (text : Text) → LeadsHere text
unfolding dot_to_slash strcmp_eq
leads text = record {
  doc = mapping ((b'a' ∷ b'/' ∷ b'b' ∷ [], text) ∷ []);
  top = mapping ((b'a' ∷ b'/' ∷ b'b' ∷ [], text) ∷ []);
  valid = refl;
  opened = refl;
  key_text = (omega arith, (omega arith, (omega arith, tt)));
  key_fits = omega arith;
  rooted = refl;
  path = refl;
}

abbrev text_42 : Text
text_42 = b'4' ∷ b'2' ∷ []

number_field_example : AllRead yaml (at_key (hex_text 2 (10 ∷ []))) key 42
unfolding digits_value
number_field_example =
    number_field base16 2 (10 ∷ []) (omega arith, (omega arith, tt))
      (holds (hex_text 2 (10 ∷ [])) (omega arith))

abbrev lower_t : Text
lower_t = b't' ∷ []

abbrev lower_true : Text
lower_true = b't' ∷ b'r' ∷ b'u' ∷ b'e' ∷ []

bool_field_example :
    (ut_kvp_get_bool_field yaml (some (at_key (b'T' ∷ []))) (some key) ≡ some true)
    ↔ (lower_t ≡ lower_true)
unfolding to_lower
bool_field_example = bool_field (holds (b'T' ∷ []) (omega arith))

string_field_example :
    (b : List ℕ) × (ut_kvp_get_string_field yaml
        (some (at_key text_42))
        (some key)
        (some (replicate 8 1))
        8
      ≡ some (success, b))
    × (read_string b ≡ some text_42)
string_field_example =
    string_field (leads text_42) text_42 (replicate 8 1) 8 refl refl
      (omega arith, (omega arith, tt)) refl (omega arith)

-- "0x2a" and "7"
abbrev a_hex_and_a_decimal : List Spelling
a_hex_and_a_decimal = hex (2 ∷ 10 ∷ []) ∷ decimal (7 ∷ []) ∷ []

data_bytes-spelled_example :
    (b : List ℕ) × (ut_kvp_get_data_bytes
        (λ n. true)
        yaml
        (some (at_key (spelled_text a_hex_and_a_decimal)))
        (some key)
        (some 0)
      ≡ some (some b, some 2))
    × (take 2 b ≡ 42 ∷ 7 ∷ [])
unfolding digits_value
data_bytes-spelled_example =
    data_bytes-spelled (leads (spelled_text a_hex_and_a_decimal)) (λ n. true) (λ n. refl)
      a_hex_and_a_decimal
      (
        ((λ e. cc), (omega arith, (omega arith, tt)), omega arith),
        (((λ e. cc), (omega arith, tt), omega arith), tt),
      )
      (omega arith) refl refl 0

abbrev one_slot : Output
one_slot = record { output_bytes = 0 ∷ []; byte_count = 0 }

-- Two tokens, for which the block has to be expanded.
collect-Collected_example :
    Collected
      (λ n. true)
      ((b'7' ∷ []) ∷ text_42 ∷ [])
      one_slot
      (collect (λ n. true) ((b'7' ∷ []) ∷ text_42 ∷ []) one_slot)
collect-Collected_example =
    collect-Collected (λ n. true) ((b'7' ∷ []) ∷ text_42 ∷ []) one_slot
      (record { inside = omega arith; nonempty = omega arith }) (omega arith)
