-- ===== src/Manager/New.antt =====
-- core/manager.go, core/option.go: NewManager and its options. The bus and the clock are those of the
-- world that the methods run in, so that WithEventBus and WithRuntime choose that world. Whether the
-- store has the port AtomicStore is given with the store.
use better_token.Base.{Option, none, some, List, false}
use better_token.Text.{Text}
use better_token.Errors.{ok}
use better_token.Store.{StoreOps, AtomicOps}
use better_token.Config.{
  Config, RefreshConfig, NonceConfig, default_config, refresh_with_defaults, nonce_with_defaults,
}
use better_token.Options
use better_token.Manager.{Manager, AuthorizerOps}

-- NoopAuthorizer
abbrev pub noop_authorizer : AuthorizerOps
noop_authorizer = record { has_authority = λ c login_id requested. ok false }

module _ {S : Type 0} where
  unfoldable pub with_config : Config → Manager S → Manager S
  with_config config m = record m { config = config }

  unfoldable pub with_authorizer : Option AuthorizerOps → Manager S → Manager S
  with_authorizer none m = m
  with_authorizer (some authorizer) m = record m { authorizer = authorizer }

  unfoldable pub with_nonce_config : NonceConfig → Manager S → Manager S
  unfolding nonce_with_defaults
  with_nonce_config config m = record m {
    config = record m.config { nonce = nonce_with_defaults config };
  }

  unfoldable pub with_refresh_config : RefreshConfig → Manager S → Manager S
  unfolding refresh_with_defaults
  with_refresh_config config m = record m {
    config = record m.config { refresh = refresh_with_defaults config };
  }

  -- What NewManager does after the options
  abbrev pub complete : Manager S → Manager S
  complete m = record m {
    config = record m.config {
      refresh = refresh_with_defaults m.config.refresh;
      nonce = nonce_with_defaults m.config.nonce;
    };
  }

  -- NewManager, over a store that is not nil
  unfoldable pub new_manager :
      StoreOps S
      → Option (AtomicOps S)
      → (Text → Text)
      → List (Option (Manager S → Manager S))
      → Manager S
  unfolding Options.apply refresh_with_defaults nonce_with_defaults
  new_manager store atomic sha256_hex opts = complete (
      Options.apply
        (record {
          config = default_config;
          store = store;
          atomic_store = atomic;
          authorizer = noop_authorizer;
          sha256_hex = sha256_hex;
        })
        opts)
