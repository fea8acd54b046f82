-- ===== src/Session.antt =====
-- core/session.go: the key-value container of a login subject. A value of a type that the model
-- does not tell apart is `opaque`, by its identity; copies of values are values, so `Clone` only
-- turns a nil map into an empty one. The mutex makes each method one step. A nil receiver, for
-- which every method does nothing, is left to the callers.
use mathlib.Core.Option
use better_token.Base.{ℕ, suc, Bool, false, Option, none, some, List, [], ◌∷◌, ◌==◌, is_some}
use better_token.Base.Map
use better_token.Base.Map.{Map, keys}
use better_token.Text.{Text, dec_text}
use better_token.State.{LoginSubject, normalize_subject}

pub data Value : Type 0 where
  nil : Value
  string : Text → Value
  bool : Bool → Value
  opaque : ℕ → Value

abbrev pub Data : Type 0
Data = Map Text Value

pub record Session : Type 0 where
  pub subject : LoginSubject
  pub values : Option Data

-- NewSessionForSubject and NewSession
unfoldable pub new_session_for_subject : LoginSubject → Session
new_session_for_subject subject = record { subject = normalize_subject subject; values = some [] }

unfoldable pub new_session : Text → Session
unfolding new_session_for_subject
new_session login_id = new_session_for_subject (record { login_id = login_id; login_type = [] })

-- A nil map reads as an empty one, and a write makes it first.
abbrev pub made : Option Data → Data
made none = []
made (some m) = m

-- Session.Clone
unfoldable pub clone_session : Session → Session
clone_session s = record s { values = some (made s.values) }

-- Session.Get, Has, Set, Remove and Clear
unfoldable pub get_value : Session → Text → Option Value
unfolding Map.get dec_text
get_value s key = Map.get dec_text key (made s.values)

unfoldable pub has_value : Session → Text → Bool
unfolding get_value
has_value s key = is_some (get_value s key)

unfoldable pub set_value : Text → Value → Session → Session
unfolding Map.put dec_text
set_value key value s = record s { values = some (Map.put dec_text key value (made s.values)) }

unfoldable pub remove_value : Text → Session → Session
unfolding Map.delete dec_text
remove_value key s = record s { values = Option.map (Map.delete dec_text key) s.values }

unfoldable pub clear : Session → Session
clear s = record s { values = some [] }

-- Session.SetMulti
put_all : Data → Data → Data
unfolding Map.put dec_text
put_all [] m = m
put_all ((key, value) ∷ rest) m = put_all rest (Map.put dec_text key value m)

unfoldable pub set_multi : Data → Session → Session
unfolding put_all
set_multi [] s = s
set_multi (e ∷ values) s = record s { values = some (put_all (e ∷ values) (made s.values)) }

-- Session.GetString and GetBool: the zero value for a missing key or a value of another type
abbrev as_string : Option Value → Text
as_string (some (string t)) = t
as_string _ = []

unfoldable pub get_string : Session → Text → Text
unfolding get_value
get_string s key = as_string (get_value s key)

abbrev as_bool : Option Value → Bool
as_bool (some (bool b)) = b
as_bool _ = false

unfoldable pub get_bool : Session → Text → Bool
unfolding get_value
get_bool s key = as_bool (get_value s key)

-- Session.Keys, Size and IsEmpty
unfoldable pub session_keys : Session → List Text
session_keys s = keys (made s.values)

abbrev pub length {ℓ} : {A : Type ℓ} → List A → ℕ
length [] = 0
length (x ∷ xs) = suc (length xs)

unfoldable pub size : Session → ℕ
size s = length (made s.values)

unfoldable pub is_empty : Session → Bool
unfolding size
is_empty s = size s == 0
