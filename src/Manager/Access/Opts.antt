-- ===== src/Manager/Access/Opts.antt =====
-- core/option.go: the options of login and logout.
use better_token.Base.{Bool, false, [], is_nil, if◌then◌else◌}
use better_token.Text.{Text, Bytes, trim_space}
use better_token.State.{default_login_type}

-- loginOptions
pub record LoginOptions : Type 0 where
  pub login_type : Text
  pub device : Text
  pub metadata : Bytes
  pub nonce : Text
  pub preserve_refresh : Text

abbrev pub default_login_options : LoginOptions
default_login_options = record {
  login_type = default_login_type;
  device = [];
  metadata = [];
  nonce = [];
  preserve_refresh = [];
}

-- WithLoginType: a blank type changes nothing.
unfoldable pub with_login_type : Text → LoginOptions → LoginOptions
unfolding trim_space
with_login_type login_type opts =
    let value = trim_space login_type in
    if is_nil value then opts else record opts { login_type = value }

-- WithDevice, WithMetadata and WithNonce
unfoldable pub with_device : Text → LoginOptions → LoginOptions
unfolding trim_space
with_device device opts = record opts { device = trim_space device }

unfoldable pub with_metadata : Bytes → LoginOptions → LoginOptions
with_metadata metadata opts = record opts { metadata = metadata }

unfoldable pub with_nonce : Text → LoginOptions → LoginOptions
unfolding trim_space
with_nonce nonce opts = record opts { nonce = trim_space nonce }

-- logoutOptions
pub record LogoutOptions : Type 0 where
  pub login_type : Text
  pub delete_session : Bool

abbrev pub default_logout_options : LogoutOptions
default_logout_options = record { login_type = default_login_type; delete_session = false }

-- WithLogoutLoginType and WithDeleteSession
unfoldable pub with_logout_login_type : Text → LogoutOptions → LogoutOptions
unfolding trim_space
with_logout_login_type login_type opts =
    let value = trim_space login_type in
    if is_nil value then opts else record opts { login_type = value }

unfoldable pub with_delete_session : Bool → LogoutOptions → LogoutOptions
with_delete_session delete_session opts = record opts { delete_session = delete_session }
