-- ===== src/Plugins/Grpc.antt =====
-- plugins/grpc: the interceptors of the server and of the client. What a context carries is a parameter:
-- the metadata that came in, and what the source of a client's token gives. Package strings' ToLower goes
-- by code points.
pub mod Laws
use better_token.Base.{ℕ, Bool, Option, none, some, List, [], ◌∷◌, ◌++◌, is_nil, map, if◌then◌else◌}
use better_token.Text.{Text, text, trim_space}
use better_token.Errors.{Error, Result, ok, err}
use better_token.Context.{AuthContext, with_auth}
use better_token.Run.{World}
use better_token.Manager.{Manager}
use better_token.Plugins.{authenticate}
use better_token.Plugins.Lookup.{TokenLookup, Source, header, Getters, resolve, or_text}

abbrev pub default_metadata_key : Text
default_metadata_key = text "authorization"

-- options of the server
pub record ServerOptions : Type 0 where
  pub metadata_key : Text
  pub lookup : TokenLookup

-- clientOptions: the source of the token is that of the call.
pub record ClientOptions : Type 0 where
  pub metadata_key : Text
  pub token_prefix : Text

-- metadata.MD
abbrev pub Metadata : Type 0
Metadata = Text → List Text

-- Why a call is not let through: codes.Unauthenticated with a message
pub data Denial : Type 0 where
  no_metadata no_token no_manager : Denial
  refused : Error → Denial

-- What options.authenticate ends in: the call is denied, or goes on with a context.
pub data Verdict : Type 0 where
  denied_with : Denial → Verdict
  passed : Option AuthContext → Verdict

abbrev pub apply_all : {T : Type 0} → T → List (T → T) → T
apply_all t [] = t
apply_all t (opt ∷ opts) = apply_all (opt t) opts

unfoldable pub with_token_lookup : TokenLookup → ServerOptions → ServerOptions
with_token_lookup lookup o = record o { lookup = lookup }

-- newOptions
abbrev pub settled : ServerOptions → ServerOptions
settled o =
    let key = or_text o.metadata_key default_metadata_key in
    record {
      metadata_key = key;
      lookup = record o.lookup { authorization_key = key; token_name = key; order = header ∷ [] };
    }

unfoldable pub new_options : List (ServerOptions → ServerOptions) → ServerOptions
new_options opts = settled (
    apply_all
      (record {
        metadata_key = default_metadata_key;
        lookup = record { token_name = []; token_prefix = []; authorization_key = []; order = [] };
      })
      opts)

abbrev first_or_empty : List Text → Text
first_or_empty [] = []
first_or_empty (value ∷ values) = value

module _ (lower : ℕ → ℕ) where
  -- WithMetadataKey and WithTokenLookup
  unfoldable pub with_metadata_key : Text → ServerOptions → ServerOptions
  unfolding trim_space
  with_metadata_key key o =
      if is_nil (trim_space key) then o else record o { metadata_key = map lower (trim_space key) }

  -- WithClientMetadataKey and WithClientTokenPrefix
  unfoldable pub with_client_metadata_key : Text → ClientOptions → ClientOptions
  unfolding trim_space
  with_client_metadata_key key o =
      if is_nil (trim_space key) then o else record o { metadata_key = map lower (trim_space key) }

  -- The getter of options.authenticate
  abbrev pub getters_of : Metadata → Getters
  getters_of md = record {
    header_of = some (λ key. first_or_empty (md (map lower key)));
    cookie_of = none;
    query_of = none;
  }

unfoldable pub with_client_token_prefix : Text → ClientOptions → ClientOptions
unfolding trim_space
with_client_token_prefix prefix o = record o { token_prefix = trim_space prefix }

-- newClientOptions
unfoldable pub new_client_options : List (ClientOptions → ClientOptions) → ClientOptions
new_client_options opts =
    let o = apply_all (record { metadata_key = default_metadata_key; token_prefix = [] }) opts in
    record o { metadata_key = or_text o.metadata_key default_metadata_key }

-- clientOptions.inject: the key and the value that are appended to the outgoing metadata
abbrev pub sent_value : Text → Text → Text
sent_value prefix token = if is_nil prefix then token else prefix ++ (b' ' ∷ token)

unfoldable pub inject : ClientOptions → Option Text → Option (Text × Text)
inject o none = none
inject o (some token) =
    if is_nil token then none else some (o.metadata_key, sent_value o.token_prefix token)

module _ {S : Type 0} where
  -- options.authenticate
  abbrev verdict : Option AuthContext → Result AuthContext × World S → Verdict × World S
  verdict ctx (ok auth, w) = (passed (with_auth ctx (some auth)), w)
  verdict ctx (err e, w) = (denied_with (refused e), w)

  unfoldable pub admit : Manager S → Option AuthContext → Option Text → World S → Verdict × World S
  unfolding authenticate
  admit m ctx none w = (denied_with no_token, w)
  admit m ctx (some token) w = verdict ctx (authenticate (some m) token w)

  unfoldable pub intercept :
      (fold lower : ℕ → ℕ)
      → ServerOptions
      → Option (Manager S)
      → Option AuthContext
      → Option Metadata
      → World S
      → Verdict × World S
  unfolding admit resolve
  intercept fold lower o none ctx md w = (denied_with no_manager, w)
  intercept fold lower o (some m) ctx none w = (denied_with no_metadata, w)
  intercept fold lower o (some m) ctx (some md) w =
      admit m ctx (resolve fold o.lookup (getters_of lower md)) w
