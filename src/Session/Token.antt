-- ===== src/Session/Token.antt =====
-- The access token of uis/backoffice/lib/auth-storage.ts: `localStorage`, which a browser may
-- refuse, and the copy in memory.
use miguel_n_ai_trackflow_pr.Common.{
  Bool, Bool-cases, Option, Text, false, if◌then◌else◌, inl, inr, is_written, none, refl, some, suc,
  true, ℕ, ◌&&◌, ◌≡◌,
}

-- What a call finds: a `window` or none, and which calls of `localStorage` throw.
pub record Browser : Type 0 where
  pub has_window : Bool
  pub can_get : Bool
  pub can_set : Bool
  pub can_remove : Bool

-- The item of `localStorage` under the key of the token, `memoryToken`, and how many events
-- UNAUTHORIZED_EVENT were dispatched.
pub record Tab : Type 0 where
  pub stored : Option Text
  pub memory_token : Option Text
  pub unauthorized_events : ℕ

-- `token && token.trim() ? token : fallback`
abbrev pub written_or : Option Text → Option Text → Option Text
written_or none fallback = fallback
written_or (some t) fallback = if is_written t then some t else fallback

unfoldable pub read_token : Browser → Tab → Option Text
read_token b s =
    if b.has_window
    then (if b.can_get then written_or s.stored s.memory_token else s.memory_token)
    else none

unfoldable pub store_token : Browser → Text → Tab → Tab
store_token b token s =
    if b.has_window
    then (if b.can_set
        then record {
          stored = some token;
          memory_token = none;
          unauthorized_events = s.unauthorized_events;
        }
        else record {
          stored = s.stored;
          memory_token = some token;
          unauthorized_events = s.unauthorized_events;
        })
    else s

unfoldable pub clear_token : Browser → Tab → Tab
clear_token b s = record {
  stored = if b.has_window && b.can_remove then none else s.stored;
  memory_token = none;
  unauthorized_events = s.unauthorized_events;
}

unfoldable pub handle_unauthorized : Browser → Tab → Tab
handle_unauthorized b s =
    let cleared = clear_token b s in
    record {
      stored = cleared.stored;
      memory_token = cleared.memory_token;
      unauthorized_events =
          if b.has_window then suc cleared.unauthorized_events else cleared.unauthorized_events;
    }

-- What another tab does to the storage that both share.
abbrev pub signed_out_elsewhere : Tab → Tab
signed_out_elsewhere s = record {
  stored = none;
  memory_token = s.memory_token;
  unauthorized_events = s.unauthorized_events;
}

-- In a window, a token that is not blank is read back after it was stored, if reading the storage
-- is allowed exactly when writing it is.
pub read_token-store_token :
    (b : Browser) (token : Text) (s : Tab)
    → b.has_window ≡ true
    → b.can_get ≡ b.can_set
    → is_written token ≡ true
    → read_token b (store_token b token s) ≡ some token
unfolding read_token store_token
read_token-store_token b token s w same h = elim (Bool-cases b.can_set) [
  | inl taken ↦ rw (w, same, taken, h) refl
  | inr refused ↦ rw (w, same, refused) refl
]

-- If the storage can be read and refuses to be written, a token that it holds already is read
-- instead of the token that was stored.
pub read_token-refused :
    (b : Browser) (token old : Text) (s : Tab)
    → b.has_window ≡ true
    → b.can_get ≡ true
    → b.can_set ≡ false
    → s.stored ≡ some old
    → is_written old ≡ true
    → read_token b (store_token b token s) ≡ some old
unfolding read_token store_token
read_token-refused b token old s w g refused e h = rw (w, g, refused, e, h) refl

-- After a rejected call there is no token to read, if the storage can be read exactly when it can be
-- removed from; and in a window exactly one event asks for the login page, and else none.
pub handle_unauthorized_lem :
    (b : Browser) (s : Tab)
    → b.can_get ≡ b.can_remove
    → (read_token b (handle_unauthorized b s) ≡ none)
      × ((handle_unauthorized b s).unauthorized_events
          ≡ (if b.has_window then suc s.unauthorized_events else s.unauthorized_events))
unfolding read_token handle_unauthorized clear_token
handle_unauthorized_lem b s same = (
  elim (Bool-cases b.has_window) [
    | inl w ↦ elim (Bool-cases b.can_remove) [
      | inl fine ↦ rw (w, same, fine) refl
      | inr refused ↦ rw (w, same, refused) refl
    ]
    | inr server ↦ rw server refl
  ],
  refl,
)

-- A session whose token the storage took ends when another tab signs out.
pub signed_out_elsewhere_lem :
    (b : Browser) (token : Text) (s : Tab)
    → b.has_window ≡ true
    → b.can_set ≡ true
    → read_token b (signed_out_elsewhere (store_token b token s)) ≡ none
unfolding read_token store_token
signed_out_elsewhere_lem b token s w fine = elim (Bool-cases b.can_get) [
  | inl seen ↦ rw (w, fine, seen) refl
  | inr unseen ↦ rw (w, fine, unseen) refl
]
