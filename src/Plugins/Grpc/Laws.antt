-- ===== src/Plugins/Grpc/Laws.antt =====
-- plugins/grpc: the server reads the token that the client has sent.
use better_token.Base.{
  ℕ, ◌≡◌, refl, sym, ap, ◌∙◌, false, none, some, [], ◌∷◌, is_nil, map, Bool-cases, inl, inr,
}
use better_token.Text.{Text, trim_space}
use better_token.Plugins.Lookup.{
  or_text, with_defaults, normalize, look, first_of, or_next, resolve,
}
use better_token.Plugins.Lookup.Laws.{IsWord, normalize-prefixed, normalize-plain}
use better_token.Plugins.Grpc.{
  ServerOptions, ClientOptions, Metadata, default_metadata_key, settled, first_or_empty, getters_of,
  sent_value, inject,
}

or_text-some : (s d : Text) → is_nil d ≡ false → is_nil (or_text s d) ≡ false
or_text-some [] d h = h
or_text-some (c ∷ s) d h = refl

or_text-same : (s d : Text) → is_nil s ≡ false → or_text s d ≡ s
or_text-same [] d h = absurd (cc)
or_text-same (c ∷ s) d h = refl

module _ (fold lower : ℕ → ℕ) (client : ClientOptions) (server : ServerOptions) where
  normalize-sent_value :
      (token : Text)
      → IsWord token
      → is_nil token ≡ false
      → client.token_prefix ≡ trim_space server.lookup.token_prefix
      → IsWord client.token_prefix
      → normalize fold server.lookup.token_prefix (sent_value client.token_prefix token)
        ≡ some token
  normalize-sent_value token ht nt p hp =
      elim (Bool-cases (is_nil (trim_space server.lookup.token_prefix))) [
        | inl n ↦ rw (p, n) (normalize-plain fold server.lookup.token_prefix token n ht nt)
        | inr n ↦
            rw (p, n)
              (normalize-prefixed fold server.lookup.token_prefix token (rw p at hp) n ht nt)
      ]

  -- The value of the key that the server looks at.
  resolve-header :
      (md : Metadata) (value : Text)
      → md (map lower (settled server).metadata_key) ≡ value ∷ []
      → resolve fold (settled server).lookup (getters_of lower md)
        ≡ or_next (normalize fold server.lookup.token_prefix value) none
  unfolding resolve first_of look with_defaults
  resolve-header md value e =
      let key = (settled server).metadata_key in
      let n = or_text-some server.metadata_key default_metadata_key refl in
      rw (or_text-same key _ n, e, first_or_empty) refl

  -- Where the client and the server are configured with the same prefix, of at most one word, and the
  -- metadata with which the call comes in has, under the server's key, what the client has sent, the
  -- server resolves the very token that the client sent, as long as it is one word.
  pub resolve-inject :
      (md : Metadata) (token : Text) {key value : Text}
      → IsWord token
      → client.token_prefix ≡ trim_space server.lookup.token_prefix
      → IsWord client.token_prefix
      → inject client (some token) ≡ some (key, value)
      → md (map lower (settled server).metadata_key) ≡ value ∷ []
      → resolve fold (settled server).lookup (getters_of lower md) ≡ some token
  unfolding inject
  resolve-inject md token {key} {value} ht p hp sent e = elim (Bool-cases (is_nil token)) [
    | inl n ↦ absurd (let f = rw n at sent in cc)
    | inr n ↦
        let f : some (client.metadata_key, sent_value client.token_prefix token)
            ≡ some (key, value) =
          rw n at sent in
        let v : sent_value client.token_prefix token ≡ value = cc in
        resolve-header md value e
        ∙ ap (λ s. or_next (normalize fold server.lookup.token_prefix s) none) (sym v)
        ∙ ap (λ o. or_next o none) (normalize-sent_value token ht n p hp)
  ]
