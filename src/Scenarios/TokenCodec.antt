-- ===== src/Scenarios/TokenCodec.antt =====
-- An instance of the codec that the JSON of the model is over: a value as the postfix program of a
-- stack machine, two codes an instruction, and a number or a time as its own code.
use trade_pulse.Prelude.{
  ℕ, zero, suc, ◌==◌, ◌≡◌, refl, ◌∙◌, true, false, List, [], ◌∷◌, Option, none, some, if◌then◌else◌,
}
use trade_pulse.Prelude.Int.{ℤ, pos, negsuc}
use trade_pulse.Text.{Text}
use trade_pulse.Json.{
  Json, null, bool, num, str, arr, obj, Items, nil, cons, Fields, end, field, Codec, IsCodec,
}

pub data Val : Type 0 where
  text : Text → Val
  json : Json → Val
  items : Items → Val
  fields : Fields → Val

abbrev push_char : ℕ → List Val → List Val
push_char c (text s ∷ st) = text (c ∷ s) ∷ st
push_char c st = []

abbrev make_num : List Val → List Val
make_num (text s ∷ st) = json (num s) ∷ st
make_num st = []

abbrev make_str : List Val → List Val
make_str (text s ∷ st) = json (str s) ∷ st
make_str st = []

abbrev make_cons : List Val → List Val
make_cons (items js ∷ json j ∷ st) = items (cons j js) ∷ st
make_cons st = []

abbrev make_arr : List Val → List Val
make_arr (items js ∷ st) = json (arr js) ∷ st
make_arr st = []

abbrev make_field : List Val → List Val
make_field (fields f ∷ json j ∷ text k ∷ st) = fields (field k j f) ∷ st
make_field st = []

abbrev make_obj : List Val → List Val
make_obj (fields f ∷ st) = json (obj f) ∷ st
make_obj st = []

exec : ℕ → ℕ → List Val → List Val
exec op arg st =
    if op == 0
    then json null ∷ st
    else if op == 1
    then json (bool (arg == 1)) ∷ st
    else if op == 2
    then text [] ∷ st
    else if op == 3
    then push_char arg st
    else if op == 4
    then make_num st
    else if op == 5
    then make_str st
    else if op == 6
    then items nil ∷ st
    else if op == 7
    then make_cons st
    else if op == 8
    then make_arr st
    else if op == 9
    then fields end ∷ st
    else if op == 10
    then make_field st
    else make_obj st

abbrev top : List Val → Option Json
top (json j ∷ []) = some j
top st = none

exec_all : Text → List Val → Option Json
unfolding exec
exec_all [] st = top st
exec_all (op ∷ []) st = none
exec_all (op ∷ arg ∷ rest) st = exec_all rest (exec op arg st)

text_code : Text → Text → Text
text_code [] rest = 2 ∷ 0 ∷ rest
text_code (c ∷ s) rest = text_code s (3 ∷ c ∷ rest)

mutual
  unfolding text_code

  json_code : Json → Text → Text
  json_code null rest = 0 ∷ 0 ∷ rest
  json_code (bool true) rest = 1 ∷ 1 ∷ rest
  json_code (bool false) rest = 1 ∷ 0 ∷ rest
  json_code (num s) rest = text_code s (4 ∷ 0 ∷ rest)
  json_code (str s) rest = text_code s (5 ∷ 0 ∷ rest)
  json_code (arr js) rest = items_code js (8 ∷ 0 ∷ rest)
  json_code (obj f) rest = fields_code f (11 ∷ 0 ∷ rest)

  items_code : Items → Text → Text
  items_code nil rest = 6 ∷ 0 ∷ rest
  items_code (cons j js) rest = json_code j (items_code js (7 ∷ 0 ∷ rest))

  fields_code : Fields → Text → Text
  fields_code end rest = 9 ∷ 0 ∷ rest
  fields_code (field k j f) rest = text_code k (json_code j (fields_code f (10 ∷ 0 ∷ rest)))

text_run :
    (s rest : Text) (st : List Val) → exec_all (text_code s rest) st ≡ exec_all rest (text s ∷ st)
unfolding exec_all text_code
text_run [] rest st = refl
text_run (c ∷ s) rest st = text_run s (3 ∷ c ∷ rest) st

mutual
  unfolding exec_all json_code

  json_run :
      (j : Json) (rest : Text) (st : List Val)
      → exec_all (json_code j rest) st ≡ exec_all rest (json j ∷ st)
  json_run null rest st = refl
  json_run (bool true) rest st = refl
  json_run (bool false) rest st = refl
  json_run (num s) rest st = text_run s (4 ∷ 0 ∷ rest) st
  json_run (str s) rest st = text_run s (5 ∷ 0 ∷ rest) st
  json_run (arr js) rest st = items_run js (8 ∷ 0 ∷ rest) st
  json_run (obj f) rest st = fields_run f (11 ∷ 0 ∷ rest) st

  items_run :
      (js : Items) (rest : Text) (st : List Val)
      → exec_all (items_code js rest) st ≡ exec_all rest (items js ∷ st)
  items_run nil rest st = refl
  items_run (cons j js) rest st =
      json_run j (items_code js (7 ∷ 0 ∷ rest)) st ∙ items_run js (7 ∷ 0 ∷ rest) (json j ∷ st)

  fields_run :
      (f : Fields) (rest : Text) (st : List Val)
      → exec_all (fields_code f rest) st ≡ exec_all rest (fields f ∷ st)
  fields_run end rest st = refl
  fields_run (field k j f) rest st =
      text_run k (json_code j (fields_code f (10 ∷ 0 ∷ rest))) st
      ∙ json_run j (fields_code f (10 ∷ 0 ∷ rest)) (text k ∷ st)
      ∙ fields_run f (10 ∷ 0 ∷ rest) (json j ∷ text k ∷ st)

abbrev single : Text → Option ℕ
single (x ∷ []) = some x
single s = none

abbrev int_code : ℤ → Text
int_code (pos n) = 0 ∷ n ∷ []
int_code (negsuc n) = 1 ∷ n ∷ []

abbrev read_int_code : Text → Option ℤ
read_int_code (zero ∷ n ∷ []) = some (pos n)
read_int_code (suc k ∷ n ∷ []) = some (negsuc n)
read_int_code s = none

unfoldable pub token_codec : Codec
unfolding exec_all json_code
token_codec = record {
  print = λ j. json_code j [];
  parse = λ s. exec_all s [];
  format_float = λ x. x ∷ [];
  parse_float = single;
  format_int = int_code;
  parse_int = read_int_code;
  format_time = λ t. t ∷ [];
  parse_time = single;
}

int_read : (z : ℤ) → read_int_code (int_code z) ≡ some z
int_read (pos n) = refl
int_read (negsuc n) = refl

pub token_codec-IsCodec : IsCodec token_codec
unfolding token_codec exec_all
token_codec-IsCodec = record {
  parse-print = λ j. json_run j [] [];
  parse-format_float = λ x h. refl;
  parse-format_int = λ z h. int_read z;
  parse-format_time = λ t h. refl;
}
