-- ===== src/Json/Tests.antt =====
-- Runs of the JSON operations.
use printer_repo.Prelude.{◌≡◌, refl, some, true, [], ◌∷◌}
use printer_repo.Prelude.Text.{text, text_eq}
use printer_repo.Prelude.Decimal.{decimal}
use printer_repo.Json.{
  null, boolean, number, str, arr, obj, nil, cons, done, field, stringify, quote, to_string,
}

printed : decimal 4070 ≡ text "4070"
unfolding decimal text
printed = refl

written :
    stringify (
      obj (
        field
          (text "a")
          (arr (cons null (cons (number (text "12")) nil)))
          (field (text "b") (str (10 ∷ (0xd800 ∷ []))) done)))
    ≡ text "{\"a\":[null,12],\"b\":\"\\n\\ud800\"}"
unfolding stringify quote text text_eq
written = refl

joined :
    to_string (arr (cons null (cons (boolean true) (cons (str (text "zpl")) nil))))
    ≡ some (text ",true,zpl")
unfolding to_string text text_eq
joined = refl
