-- ===== src/Tests/CommandRuns.antt =====
-- Runs of the prompts and commands of internal/cli.
use coggo.Prelude.{
  String, ◌==◌, ◌≡◌, refl, true, false, none, some, List, [], ◌∷◌, if◌then◌else◌, arith,
}
use coggo.Prelude.Texts.{split_commas}
use coggo.Prelude.Result.{ok}
use coggo.Types.{string, timestamp, list_of, FieldDef}
use coggo.Types.Json.{Value, str, arr, nil, cons, end, field, put}
use coggo.Schema.Validate.{has_type}
use coggo.Cli.Prompts.{
  Console, Input, ask, ask_yn, coerce_field, new_field, new_fields, read_field, read_fields,
}
use coggo.Cli.Prompts.Laws.{coerce_field-has_type, read_fields-ends}
use coggo.Cli.Commands.{CallDraw}
use coggo.Tests.Data.{env, rfc3339}

-- texts are themselves when trimmed, and a list prints its elements
abbrev console : Console
console = record {
  trim = λ s. s;
  lower = λ s. s;
  show = λ v. if_text v;
  parse_float = λ s. if s == "4" then some "4" else none;
}
  where
    if_text : Value → String
    if_text (str s) = s
    if_text (arr vs) = "[a b]"
    if_text v = "1"

abbrev tags : FieldDef
tags = record {
  name = "tags";
  type = list_of;
  element_type = some string;
  required = false;
  default = some (arr (cons (str "a") (cons (str "b") nil)));
  validation = "";
  description = "";
}

coerced_tags : coerce_field console "x,y" tags ≡ ok (arr (cons (str "x") (cons (str "y") nil)))
unfolding coerce_field split_commas
coerced_tags = refl

coerce_field-has_type_example :
    has_type rfc3339 list_of (arr (cons (str "x") (cons (str "y") nil))) ≡ true
coerce_field-has_type_example =
    coerce_field-has_type console rfc3339 tags "x,y" (arr (cons (str "x") (cons (str "y") nil)))
      (λ e. cc) coerced_tags

-- Enter takes the default of a list for one element, its printed text.
entered_default :
    new_fields console (tags ∷ []) ("" ∷ []) end
    ≡ ok (field "tags" (arr (cons (str "[a b]") nil)) end, [])
unfolding new_fields new_field coerce_field ask split_commas put
entered_default = refl

abbrev answers : Input
answers = "y" ∷ "due" ∷ "timestamp" ∷ "y" ∷ "when" ∷ "n" ∷ []

read_fields-ends_example : (r : List FieldDef × Input) × (read_fields console 7 answers ≡ some r)
read_fields-ends_example = read_fields-ends console 7 answers (omega arith)

read_fields_run :
    read_fields console 7 answers
    ≡ some (
      record {
        name = "due";
        type = timestamp;
        element_type = none;
        required = true;
        default = none;
        validation = "";
        description = "when";
      }
          ∷ [],
      [],
    )
unfolding read_fields read_field ask ask_yn
read_fields_run = refl

abbrev draw : CallDraw
draw = record { env = env; now = 9; id = "m1" }
