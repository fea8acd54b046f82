-- ===== src/Plugins/Lookup.antt =====
-- plugins/lookup.go: where a request's token is looked for. The folding of the cases of a code point,
-- as strings.EqualFold does it, is a parameter.
pub mod Laws
pub mod Sources
use better_token.Base.{
  ℕ, Bool, true, false, not, ◌&&◌, Option, none, some, List, [], ◌∷◌, ◌++◌, ite, is_nil, map,
  if◌then◌else◌, ◌==◌,
}
use better_token.Text.{Text, text, dec_text, is_space, trim_space}

-- Source: any other string is `other`.
pub data Source : Type 0 where
  header authorization cookie query other : Source

abbrev pub default_token_name : Text
default_token_name = text "token"

abbrev pub default_authorization_key : Text
default_authorization_key = text "Authorization"

abbrev pub default_order : List Source
default_order = header ∷ authorization ∷ cookie ∷ []

-- Getters: a nil function is `none`.
pub record Getters : Type 0 where
  pub header_of : Option (Text → Text)
  pub cookie_of : Option (Text → Text)
  pub query_of : Option (Text → Text)

pub record TokenLookup : Type 0 where
  pub token_name : Text
  pub token_prefix : Text
  pub authorization_key : Text
  pub order : List Source

abbrev pub or_text : Text → Text → Text
or_text s d = if is_nil s then d else s

abbrev or_order : List Source → List Source
or_order [] = default_order
or_order (s ∷ order) = s ∷ order

-- TokenLookup.withDefaults
unfoldable pub with_defaults : TokenLookup → TokenLookup
with_defaults l = record {
  token_name = or_text l.token_name default_token_name;
  token_prefix = l.token_prefix;
  authorization_key = or_text l.authorization_key default_authorization_key;
  order = or_order l.order;
}

-- strings.Fields, with the word that has been read so far
unfoldable pub fields_from : Text → Text → List Text
unfolding is_space
fields_from word [] = if is_nil word then [] else word ∷ []
fields_from word (c ∷ s) = elim (is_space c) [
  | true ↦ if is_nil word then fields_from [] s else word ∷ fields_from [] s
  | false ↦ fields_from (word ++ (c ∷ [])) s
]

unfoldable pub fields : Text → List Text
unfolding fields_from
fields s = fields_from [] s

-- strings.TrimPrefix, of which `rest_after` is the rest
unfoldable pub rest_after : Text → Text → Option Text
rest_after [] s = some s
rest_after (p ∷ ps) [] = none
rest_after (p ∷ ps) (c ∷ s) = if p == c then rest_after ps s else none

abbrev or_whole : Option Text → Text → Text
or_whole none s = s
or_whole (some rest) s = rest

unfoldable pub trim_prefix : Text → Text → Text
unfolding rest_after
trim_prefix s prefix = or_whole (rest_after prefix s) s

abbrev pub filled : Option Text → Option Text
filled none = none
filled (some value) = if is_nil (trim_space value) then none else some (trim_space value)

abbrev pub or_next : Option Text → Option Text → Option Text
or_next none next = next
or_next (some token) next = some token

module _ (fold : ℕ → ℕ) where
  -- strings.EqualFold
  unfoldable pub equal_fold : Text → Text → Bool
  unfolding dec_text
  equal_fold a b = ite (dec_text (map fold a) (map fold b)) true false

  -- TokenLookup.normalize
  unfoldable pub unprefixed : Text → List Text → Text → Option Text
  unfolding equal_fold trim_space trim_prefix
  unprefixed prefix [] value = some value
  unprefixed prefix (first ∷ []) value = if equal_fold first prefix then none else some value
  unprefixed prefix (first ∷ second ∷ rest) value =
      if equal_fold first prefix then some (trim_space (trim_prefix value first)) else some value

  unfoldable pub normalize : Text → Text → Option Text
  unfolding unprefixed trim_space fields
  normalize token_prefix raw =
      let value = trim_space raw in
      let prefix = trim_space token_prefix in
      if is_nil value
      then none
      else if is_nil prefix
      then filled (some value)
      else filled (unprefixed prefix (fields value) value)

  -- TokenLookup.Resolve: what one source gives, and the first that gives a token
  abbrev pub taken : Text → Option (Text → Text) → Text → Option Text
  taken prefix none key = none
  taken prefix (some get) key = normalize prefix (get key)

  unfoldable pub look : TokenLookup → Getters → Source → Option Text
  unfolding normalize
  look l g header = taken l.token_prefix g.header_of l.token_name
  look l g authorization = taken l.token_prefix g.header_of l.authorization_key
  look l g cookie = taken l.token_prefix g.cookie_of l.token_name
  look l g query = taken l.token_prefix g.query_of l.token_name
  look l g other = none

  unfoldable pub first_of : TokenLookup → Getters → List Source → Option Text
  unfolding look
  first_of l g [] = none
  first_of l g (source ∷ order) = or_next (look l g source) (first_of l g order)

  unfoldable pub resolve : TokenLookup → Getters → Option Text
  unfolding with_defaults first_of
  resolve lookup g = let l = with_defaults lookup in first_of l g l.order
