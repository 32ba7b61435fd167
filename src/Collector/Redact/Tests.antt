-- ===== src/Collector/Redact/Tests.antt =====
-- Redaction at concrete inputs. The parameter knows one address and one card number.
use toqar.Common.{
  arith, ◌&&◌, ℕ, String, true, false, none, List, [], ◌∷◌, ◌++◌, ◌≡◌, refl, map, ◌==◌,
  if◌then◌else◌, map_get, map_set,
}
use toqar.Json.{Value, num, str, arr, obj, item, nil, field, end}
use toqar.Collector.Redact.{
  Piece, between, match, codes, luhn, luhn_digits, luhn_sum, total, secret_recognizers,
  pii_recognizers, is_structural, structural_keys, replaced, replace_all, redact_text, walk,
  redact_event,
}
use toqar.Collector.Redact.Shape.{outline, texts, redacted, replacements, redact_event-Redacts}
use toqar.Collector.Redact.Luhn.{luhn_digits-changed}

abbrev card : String
card = "4111 1111 1111 1111"

luhn_tests :
    (luhn card ≡ true) × (luhn "4111 1111 1111 1112" ≡ false) × (luhn "411111111111" ≡ false)
unfolding luhn luhn_digits luhn_sum
luhn_tests = (refl, refl, refl)

abbrev cut : String → String → List Piece
cut kind text =
    if (kind == "email") && (text == "to a@b.co")
    then between "to " ∷ match "a@b.co" ∷ []
    else if kind == "credit_card" && (text == card)
    then match text ∷ []
    else between text ∷ []

abbrev event : Value
event = obj (
    field "reason" (str "to a@b.co")
      (field "note" (arr (item (str "to a@b.co") (item (str card) (item (num 3) nil)))) end))

abbrev redacted_out : Value
redacted_out = obj (
    field "reason" (str "to a@b.co") (
      field "note"
        (arr (
          item (str "to [REDACTED:email]")
            (item (str "[REDACTED:credit_card]") (item (num 3) nil))))
        end))

redact_event_lem : redact_event cut event ≡ (redacted_out, ("email", 1) ∷ ("credit_card", 1) ∷ [])
unfolding redact_event walk is_structural structural_keys redact_text replace_all replaced
    secret_recognizers pii_recognizers luhn luhn_digits luhn_sum map_get map_set
redact_event_lem = refl

redact_event-Redacts_example :
    (outline none (redact_event cut event).0 ≡ outline none event)
    × (texts none (redact_event cut event).0 ≡ map (redacted cut) (texts none event))
    × (total (redact_event cut event).1 ≡ replacements cut (texts none event))
redact_event-Redacts_example = redact_event-Redacts cut event

abbrev front : List ℕ
front = codes "411111111111111"

front_passes : luhn_digits (front ++ b'1' ∷ []) ≡ true
unfolding luhn_digits luhn_sum
front_passes = refl

luhn_digits-changed_example : luhn_digits (front ++ b'2' ∷ []) ≡ false
luhn_digits-changed_example = luhn_digits-changed front [] b'1' b'2' front_passes (λ e. omega arith)
