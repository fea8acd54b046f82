-- ===== src/Memory/Ops.antt =====
-- storage/memory/store.go as an implementation of the two ports of core/store.go.
use better_token.Base.{none, some}
use better_token.Store.{StoreOps, AtomicOps}
use better_token.Memory.{MemoryStore}
use better_token.Memory.Tokens
use better_token.Memory.Sessions

abbrev pub memory_ops : StoreOps MemoryStore
memory_ops = record {
  save_token_state = λ state. Tokens.save_state none (some state);
  get_token_state = Tokens.get_state;
  consume_token_state = λ token. Tokens.consume_state token none;
  delete_token_state = Tokens.delete_state;
  find_token_states = Tokens.find_states;
  delete_token_states = Tokens.delete_states;
  save_session = λ session. Sessions.save_session (some session);
  get_session = Sessions.get_session;
  delete_session = Sessions.delete_session;
}

abbrev pub memory_atomic_ops : AtomicOps MemoryStore
memory_atomic_ops = record {
  compare_and_swap_token_state =
      λ expected next. Tokens.compare_and_swap (some expected) (some next);
  consume_token_state_of_kind = Tokens.consume_state_of_kind;
  ensure_session = Sessions.ensure_session;
}
