-- ===== src/Accounts/Email.antt =====
-- EMAIL_PATTERN of uis/backoffice/lib/auth.ts, /^[^\s@]+@[^\s@]+\.[^\s@]+$/, as a test that reads
-- the text once. `\s` and `trim` agree on white space.
use miguel_n_ai_trackflow_pr.Common.{
  &&_iff, ==_iff, Bool, Bool-cases, Text, [], all, ap, arith, false, if◌then◌else◌, inl, inr,
  is_empty, is_white, not, refl, subst, sym, true, ℕ, ◌&&◌, ◌++◌, ◌==◌, ◌||◌, ◌↔◌, ◌∷◌, ◌≡◌,
}

-- `[^\s@]`
abbrev pub is_plain : ℕ → Bool
is_plain c = not (is_white c) && not (c == 64)

-- `[^\s@]+$`
abbrev pub is_word : Text → Bool
is_word [] = false
is_word (c ∷ s) = all is_plain (c ∷ s)

-- `[^\s@]*\.[^\s@]+$`
unfoldable pub is_dotted : Text → Bool
is_dotted [] = false
is_dotted (c ∷ s) = let rest = is_dotted s in is_plain c && (c == 46 && is_word s || rest)

-- `[^\s@]+\.[^\s@]+$`
abbrev pub is_domain : Text → Bool
is_domain [] = false
is_domain (c ∷ s) = is_plain c && is_dotted s

-- `[^\s@]*@[^\s@]+\.[^\s@]+$`
unfoldable pub is_address_end : Text → Bool
is_address_end [] = false
is_address_end (c ∷ s) =
    let rest = is_address_end s in if c == 64 then is_domain s else is_plain c && rest

unfoldable pub is_email : Text → Bool
is_email [] = false
is_email (c ∷ s) = is_plain c && is_address_end s

-- One or more characters that are neither white space nor an at sign.
pub record IsWord (s : Text) : Type 0 where
  pub some_char : is_empty s ≡ false
  pub plain : all is_plain s ≡ true

-- What follows the at sign.
pub record IsDomain (s : Text) : Type 0 where
  pub domain : Text
  pub top : Text
  pub parts : s ≡ domain ++ 46 ∷ top
  pub domain_IsWord : IsWord domain
  pub top_IsWord : IsWord top

-- The pattern as it is written: a word, `@`, a word, `.` and a word.
pub record Matches (s : Text) : Type 0 where
  pub local : Text
  pub host : Text
  pub parts : s ≡ local ++ 64 ∷ host
  pub local_IsWord : IsWord local
  pub host_IsDomain : IsDomain host

IsWord-iff : (s : Text) → (is_word s ≡ true) ↔ IsWord s
IsWord-iff [] = (λ h. cc, λ h. cc (h.some_char))
IsWord-iff (c ∷ s) = (λ h. record { some_char = refl; plain = h }, λ h. h.plain)

-- Any plain characters, a separator, and a rest of which `Rest` holds.
record Split (sep : ℕ) (Rest : Text → Type 0) (s : Text) : Type 0 where
  before : Text
  after : Text
  parts : s ≡ before ++ sep ∷ after
  plain : all is_plain before ≡ true
  rest : Rest after

is_dotted_sound : (s : Text) → is_dotted s ≡ true → Split 46 IsWord s
unfolding is_dotted
is_dotted_sound [] h = cc
is_dotted_sound (c ∷ s) h = elim (Bool-cases (c == 46 && is_word s)) [
  | inl here ↦ record {
    before = [];
    after = s;
    parts = ap (λ d. d ∷ s) ((==_iff c 46).0 (((&&_iff (c == 46) (is_word s)).0 here).0));
    plain = refl;
    rest = (IsWord-iff s).0 (((&&_iff (c == 46) (is_word s)).0 here).1);
  }
  | inr later ↦
      let (plain, found) = (&&_iff (is_plain c) _).0 h in
      let k = is_dotted_sound s (ground arith) in
      record {
        before = c ∷ k.before;
        after = k.after;
        parts = ap (λ t. c ∷ t) k.parts;
        plain = ground (arith, k.plain);
        rest = k.rest;
      }
]

is_dotted_complete :
    (before after : Text)
    → all is_plain before ≡ true
    → IsWord after
    → is_dotted (before ++ 46 ∷ after) ≡ true
unfolding is_dotted is_white
is_dotted_complete [] after h w = rw ((IsWord-iff after).1 w) refl
is_dotted_complete (c ∷ before) after h w =
    let (plain, others) = (&&_iff (is_plain c) (all is_plain before)).0 h in
    ground (arith, is_dotted_complete before after others w)

is_domain_sound : (s : Text) → is_domain s ≡ true → IsDomain s
is_domain_sound [] h = cc
is_domain_sound (c ∷ s) h =
    let (plain, dotted) = (&&_iff (is_plain c) (is_dotted s)).0 h in
    let k = is_dotted_sound s dotted in
    record {
      domain = c ∷ k.before;
      top = k.after;
      parts = ap (λ t. c ∷ t) k.parts;
      domain_IsWord = record { some_char = refl; plain = ground (arith, k.plain) };
      top_IsWord = k.rest;
    }

is_domain_complete :
    (domain top : Text) → IsWord domain → IsWord top → is_domain (domain ++ 46 ∷ top) ≡ true
is_domain_complete [] top d t = cc (d.some_char)
is_domain_complete (c ∷ domain) top d t =
    let (plain, others) = (&&_iff (is_plain c) (all is_plain domain)).0 d.plain in
    (&&_iff (is_plain c) (is_dotted (domain ++ 46 ∷ top))).1
      (plain, is_dotted_complete domain top others t)

is_address_end_sound : (s : Text) → is_address_end s ≡ true → Split 64 IsDomain s
unfolding is_address_end
is_address_end_sound [] h = cc
is_address_end_sound (c ∷ s) h = elim (Bool-cases (c == 64)) [
  | inl here ↦ record {
    before = [];
    after = s;
    parts = ap (λ d. d ∷ s) ((==_iff c 64).0 here);
    plain = refl;
    rest = is_domain_sound s (ground arith);
  }
  | inr later ↦
      let (plain, found) =
        (&&_iff (is_plain c) (is_address_end s)).0 (
          subst (λ b. (if b then is_domain s else is_plain c && is_address_end s) ≡ true) later
            h) in
      let k = is_address_end_sound s found in
      record {
        before = c ∷ k.before;
        after = k.after;
        parts = ap (λ t. c ∷ t) k.parts;
        plain = ground (arith, k.plain);
        rest = k.rest;
      }
]

is_address_end_complete :
    (before host : Text)
    → all is_plain before ≡ true
    → IsDomain host
    → is_address_end (before ++ 64 ∷ host) ≡ true
unfolding is_address_end
is_address_end_complete [] host h d =
    subst (λ t. is_domain t ≡ true) (sym d.parts)
      (is_domain_complete d.domain d.top d.domain_IsWord d.top_IsWord)
is_address_end_complete (c ∷ before) host h d =
    let (plain, others) = (&&_iff (is_plain c) (all is_plain before)).0 h in
    ground (arith, is_address_end_complete before host others d)

is_email_sound : (s : Text) → is_email s ≡ true → Matches s
unfolding is_email
is_email_sound [] h = cc
is_email_sound (c ∷ s) h =
    let (plain, others) = (&&_iff (is_plain c) (is_address_end s)).0 h in
    let k = is_address_end_sound s others in
    record {
      local = c ∷ k.before;
      host = k.after;
      parts = ap (λ t. c ∷ t) k.parts;
      local_IsWord = record { some_char = refl; plain = ground (arith, k.plain) };
      host_IsDomain = k.rest;
    }

is_email_complete :
    (local host : Text) → IsWord local → IsDomain host → is_email (local ++ 64 ∷ host) ≡ true
unfolding is_email
is_email_complete [] host l d = cc (l.some_char)
is_email_complete (c ∷ local) host l d =
    let (plain, others) = (&&_iff (is_plain c) (all is_plain local)).0 l.plain in
    (&&_iff (is_plain c) (is_address_end (local ++ 64 ∷ host))).1
      (plain, is_address_end_complete local host others d)

-- The one reading accepts exactly the texts of the pattern: a word, `@`, a word, `.` and a word,
-- where a word is one or more characters that are neither white space nor an at sign.
pub is_email_iff : (s : Text) → (is_email s ≡ true) ↔ Matches s
is_email_iff s = (
  is_email_sound s,
  λ h.
      subst (λ t. is_email t ≡ true) (sym h.parts)
        (is_email_complete h.local h.host h.local_IsWord h.host_IsDomain),
)
