-- ===== src/Plugins/Lookup/Sources.antt =====
-- plugins/lookup.go: `TokenLookup.Resolve`, against a relation that names for each source the getter and
-- the key, and the order, that it stands for.
use better_token.Base.{
  ℕ, ◌≡◌, refl, ap, ◌∙◌, false, inl, inr, Option, none, some, List, [], ◌∷◌, ◌++◌, All, is_nil,
  Option-cases,
}
use better_token.Text.{Text, text}
use better_token.Plugins.Lookup.{
  Source, Getters, TokenLookup, with_defaults, normalize, taken, look, or_text, or_next, first_of,
  resolve,
}

-- A configured name, which stands for the default name where it is empty.
pub data Named (given default name : Text) : Type 0 where
  unset_name : given ≡ [] → name ≡ default → Named given default name
  set_name : is_nil given ≡ false → name ≡ given → Named given default name

-- A configured order, which stands for the token header, Authorization and the cookie where it is empty.
pub data Ordered (given order : List Source) : Type 0 where
  unset_order :
      given ≡ []
      → order ≡ Source.header ∷ Source.authorization ∷ Source.cookie ∷ []
      → Ordered given order
  set_order :
      (s : Source) (rest : List Source) → given ≡ s ∷ rest → order ≡ s ∷ rest → Ordered given order

or_text-Named : (given default : Text) → Named given default (or_text given default)
or_text-Named [] default = unset_name refl refl
or_text-Named (c ∷ given) default = set_name refl refl

Named-or_text :
    {given default name : Text} → Named given default name → name ≡ or_text given default
Named-or_text {given} {default} (unset_name e n) = rw e n
Named-or_text (set_name e n) = rw e n

with_defaults-Ordered :
    (lookup : TokenLookup) (given : List Source)
    → lookup.order ≡ given
    → Ordered given (with_defaults lookup).order
unfolding with_defaults
with_defaults-Ordered lookup [] e = unset_order refl (rw e refl)
with_defaults-Ordered lookup (s ∷ rest) e = set_order s rest refl (rw e refl)

Ordered-order :
    (lookup : TokenLookup) {order : List Source}
    → Ordered lookup.order order
    → (with_defaults lookup).order ≡ order
unfolding with_defaults
Ordered-order lookup (unset_order e o) = rw (e, o) refl
Ordered-order lookup (set_order s rest e o) = rw (e, o) refl

module _ (fold : ℕ → ℕ) (lookup : TokenLookup) (g : Getters) where
  -- A getter is there, and its value at the name gives the token.
  abbrev pub Reads : Option (Text → Text) → Text → Text → Text → Type 0
  Reads getter given default token =
      (get : Text → Text) × (name : Text) × (getter ≡ some get)
      × Named given default name
      × (normalize fold lookup.token_prefix (get name) ≡ some token)

  abbrev pub Gives : Source → Text → Type 0
  Gives Source.header token = Reads g.header_of lookup.token_name (text "token") token
  Gives Source.authorization token =
      Reads g.header_of lookup.authorization_key (text "Authorization") token
  Gives Source.cookie token = Reads g.cookie_of lookup.token_name (text "token") token
  Gives Source.query token = Reads g.query_of lookup.token_name (text "token") token
  Gives Source.other token = ⊥

  abbrev pub GivesNone : Source → Type 0
  GivesNone source = (token : Text) → ¬ Gives source token

  -- The source of an order that gives a token where none before it gives one.
  pub record IsFirst (token : Text) : Type 0 where
    pub before : List Source
    pub source : Source
    pub after : List Source
    pub ordered : Ordered lookup.order (before ++ (source ∷ after))
    pub gives : Gives source token
    pub none_before : All GivesNone before

  taken-Reads :
      (getter : Option (Text → Text)) (given default : Text) {token : Text}
      → taken fold lookup.token_prefix getter (or_text given default) ≡ some token
      → Reads getter given default token
  taken-Reads none given default e = absurd (cc)
  taken-Reads (some get) given default e =
      (get, or_text given default, refl, or_text-Named given default, e)

  Reads-taken :
      (getter : Option (Text → Text)) (given default : Text) {token : Text}
      → Reads getter given default token
      → taken fold lookup.token_prefix getter (or_text given default) ≡ some token
  Reads-taken getter given default (get, name, p, n, e) = rw (p, ← Named-or_text n) e

  look-Gives :
      (source : Source) {token : Text}
      → look fold (with_defaults lookup) g source ≡ some token
      → Gives source token
  unfolding look with_defaults
  look-Gives Source.header e = taken-Reads g.header_of lookup.token_name (text "token") e
  look-Gives Source.authorization e =
      taken-Reads g.header_of lookup.authorization_key (text "Authorization") e
  look-Gives Source.cookie e = taken-Reads g.cookie_of lookup.token_name (text "token") e
  look-Gives Source.query e = taken-Reads g.query_of lookup.token_name (text "token") e
  look-Gives Source.other e = absurd (cc)

  Gives-look :
      (source : Source) {token : Text}
      → Gives source token
      → look fold (with_defaults lookup) g source ≡ some token
  unfolding look with_defaults
  Gives-look Source.header h = Reads-taken g.header_of lookup.token_name (text "token") h
  Gives-look Source.authorization h =
      Reads-taken g.header_of lookup.authorization_key (text "Authorization") h
  Gives-look Source.cookie h = Reads-taken g.cookie_of lookup.token_name (text "token") h
  Gives-look Source.query h = Reads-taken g.query_of lookup.token_name (text "token") h
  Gives-look Source.other h = absurd h

  look-GivesNone :
      (source : Source) → look fold (with_defaults lookup) g source ≡ none → GivesNone source
  look-GivesNone source e token h = let p = Gives-look source h in absurd (cc)

  GivesNone-look :
      (source : Source) → GivesNone source → look fold (with_defaults lookup) g source ≡ none
  GivesNone-look source h = elim (Option-cases (look fold (with_defaults lookup) g source)) [
    | inl n ↦ n
    | inr (token, e) ↦ absurd (h token (look-Gives source e))
  ]

  -- The place in an order at which the token is found.
  abbrev Found : Text → List Source → Type 0
  Found token order =
      (before : List Source) × (source : Source) × (after : List Source) × (order
        ≡ before ++ (source ∷ after))
      × Gives source token
      × All GivesNone before

  first_of-Found :
      (order : List Source) {token : Text}
      → first_of fold (with_defaults lookup) g order ≡ some token
      → Found token order
  unfolding first_of
  first_of-Found [] e = absurd (cc)
  first_of-Found (source ∷ order) e =
      elim (Option-cases (look fold (with_defaults lookup) g source)) [
        | inl n ↦
            let (before, at, after, p, h, none_before) =
              first_of-Found order (rw (n, or_next) at e) in
            (
              source ∷ before,
              at,
              after,
              ap (λ l. source ∷ l) p,
              h,
              (look-GivesNone source n, none_before),
            )
        | inr (t, s) ↦
            let p = rw (s, or_next) at e in ([], source, order, refl, look-Gives source (s ∙ p), tt)
      ]

  first_of-before :
      (before : List Source) (source : Source) (after : List Source) {token : Text}
      → Gives source token
      → All GivesNone before
      → first_of fold (with_defaults lookup) g (before ++ (source ∷ after)) ≡ some token
  unfolding first_of
  first_of-before [] source after h n = rw (Gives-look source h, or_next) refl
  first_of-before (s ∷ before) source after h (hs, n) =
      rw (GivesNone-look s hs, or_next) (first_of-before before source after h n)

  -- A lookup resolves a token exactly where, in the configured order, or in the order of the token
  -- header, Authorization and the cookie where none is configured, some source gives it and none before
  -- it gives a token. A source gives what `normalize` makes, under the configured prefix, of the value
  -- that its getter has: the header's, the cookie's or the query's at the token's name, which is `token`
  -- where none is configured, and the header's at the authorization key, which is `Authorization`.
  pub resolve-IsFirst :
      (token : Text)
      → (resolve fold lookup g ≡ some token → IsFirst token)
        × (IsFirst token → resolve fold lookup g ≡ some token)
  unfolding resolve
  resolve-IsFirst token = (to, from)
    where
      to :
          first_of fold (with_defaults lookup) g (with_defaults lookup).order ≡ some token
          → IsFirst token
      to e =
          let (before, source, after, p, h, n) = first_of-Found (with_defaults lookup).order e in
          let o : Ordered lookup.order (with_defaults lookup).order =
            with_defaults-Ordered lookup lookup.order refl in
          record {
            before = before;
            source = source;
            after = after;
            ordered = rw p at o;
            gives = h;
            none_before = n;
          }

      from :
          IsFirst token
          → first_of fold (with_defaults lookup) g (with_defaults lookup).order ≡ some token
      from f =
          rw (Ordered-order lookup f.ordered)
            (first_of-before f.before f.source f.after f.gives f.none_before)
