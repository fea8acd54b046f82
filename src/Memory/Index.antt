-- ===== src/Memory/Index.antt =====
-- The index of the store in memory: what each write does to the tokens and to the index, and the
-- invariant that the two agree.
use better_token.Base.{
  ◌≡◌, refl, Bool, true, false, Option, none, some, [], ◌∷◌, arith, ite, is_nil, is_some, inl, inr,
  if_pos, if_neg, Option-cases,
}
use better_token.Base.Map
use better_token.Base.Map.{Map, Set, map_laws, get-put, get-delete}
use better_token.Text.{Text, dec_text}
use better_token.State.{LoginSubject, dec_subject, normalize_subject, subject_of}
use better_token.Memory.{
  TokenItem, MemoryStore, token_at, index_at, tokens_of, put_or_drop, add_index, remove_index,
  delete_token,
}

-- Whether the index lists a token under a subject.
abbrev pub is_indexed : MemoryStore → LoginSubject → Text → Bool
is_indexed s subject token = is_some (Map.get dec_text token (tokens_of (index_at s subject)))

-- The subject under which an item belongs.
abbrev pub home : TokenItem → LoginSubject
home item = normalize_subject (subject_of item.state)

abbrev pub owns : LoginSubject → Option TokenItem → Bool
owns subject none = false
owns subject (some item) = ite (dec_subject (home item) subject) true false

-- The index lists exactly the stored tokens, each under its own subject, and an item is stored
-- under the token of its state.
pub record IsConsistent (s : MemoryStore) : Type 0 where
  pub agrees :
      (subject : LoginSubject) (token : Text)
      → is_indexed s subject token ≡ owns subject (token_at s token)
  pub named :
      (token : Text) (item : TokenItem) → token_at s token ≡ some item → item.state.token ≡ token

is_nil-get :
    (token : Text) (tokens : Set Text) → is_nil tokens ≡ true → Map.get dec_text token tokens ≡ none
unfolding Map.get
is_nil-get token [] h = refl
is_nil-get token (e ∷ tokens) h = ground arith

index_at-put_or_drop :
    (key subject : LoginSubject) (token : Text) (tokens : Set Text)
    (indexes : Map LoginSubject (Set Text))
    → is_some (
        Map.get dec_text token
          (tokens_of (Map.get dec_subject subject (put_or_drop key tokens indexes))))
      ≡ ite
          (dec_subject key subject)
          (is_some (Map.get dec_text token tokens))
          (is_some (Map.get dec_text token (tokens_of (Map.get dec_subject subject indexes))))
unfolding Map.get
index_at-put_or_drop key subject token tokens indexes = ground (
  arith,
  is_nil-get token tokens,
  get-put dec_subject key subject tokens indexes,
  get-delete dec_subject key subject indexes,
)

module _ (subject key : LoginSubject) (token k : Text) (s : MemoryStore) where
  abbrev own : LoginSubject
  own = normalize_subject subject

  not_indexed : index_at s own ≡ none → own ≡ key → is_indexed s key k ≡ false
  unfolding Map.get
  not_indexed e p = rw (← p, e)

  pub is_indexed-remove_index :
      is_indexed (remove_index subject token s) key k
      ≡ ite
          (dec_subject (normalize_subject subject) key)
          (ite (dec_text token k) false (is_indexed s key k))
          (is_indexed s key k)
  unfolding remove_index
  is_indexed-remove_index = elim (Option-cases (index_at s own)) [
    | inl e ↦
        rw (e, remove_index)
          (elim (dec_subject own key) [
            | yes p ↦ rw (if_pos _ p, not_indexed e p) (ground arith)
            | no p ↦ rw (if_neg _ p)
          ])
    | inr (tokens, e) ↦
        rw (e, remove_index)
          (elim (dec_subject own key) [
            | yes p ↦
                rw
                  (
                    index_at-put_or_drop own key k (Map.delete dec_text token tokens) s.indexes,
                    if_pos _ p,
                    get-delete,
                  )
                  (rw (← p, e) (ground arith))
            | no p ↦
                ground (
                  arith,
                  index_at-put_or_drop own key k (Map.delete dec_text token tokens) s.indexes,
                )
          ])
  ]

  pub is_indexed-add_index :
      is_indexed (add_index subject token s) key k
      ≡ ite
          (dec_subject (normalize_subject subject) key)
          (ite (dec_text token k) true (is_indexed s key k))
          (is_indexed s key k)
  unfolding add_index
  is_indexed-add_index = ground (
    arith,
    get-put dec_subject (normalize_subject subject) key
        (Map.put dec_text token tt (tokens_of (index_at s (normalize_subject subject)))) s.indexes,
    get-put dec_text token k tt (tokens_of (index_at s (normalize_subject subject))),
  )

pub tokens-remove_index :
    (subject : LoginSubject) (token : Text) (s : MemoryStore)
    → (remove_index subject token s).tokens ≡ s.tokens
unfolding remove_index
tokens-remove_index subject token s = ground arith

module _ (token k : Text) (s : MemoryStore) where
  pub token_at-delete_token :
      token_at (delete_token token s) k ≡ ite (dec_text token k) none (token_at s k)
  unfolding delete_token
  token_at-delete_token = ground (arith, get-delete dec_text token k s.tokens)

  pub is_indexed-delete_token :
      (key : LoginSubject)
      → IsConsistent s
      → is_indexed (delete_token token s) key k ≡ ite (dec_text token k) false (is_indexed s key k)
  unfolding delete_token
  is_indexed-delete_token key h = elim (Option-cases (token_at s token)) [
    | inl e ↦ rw (e, delete_token) (ground (arith, h.agrees key token))
    | inr (item, e) ↦
        rw (e, delete_token)
          (ground (
            arith,
            h.agrees key token,
            is_indexed-remove_index (subject_of item.state) key token k s,
          ))
  ]

-- Dropping a token keeps the invariant.
pub delete_token-IsConsistent :
    (token : Text) {s : MemoryStore} → IsConsistent s → IsConsistent (delete_token token s)
delete_token-IsConsistent token {s} h = record {
  agrees = λ subject k. ground (
    arith,
    is_indexed-delete_token token k s subject h,
    token_at-delete_token token k s,
    h.agrees subject k,
  );
  named = λ k item e. ground (arith, token_at-delete_token token k s, h.named k item);
}
