-- ===== src/Session/Tests.antt =====
-- Runs of the session of a tab, and the theorems at them.
use miguel_n_ai_trackflow_pr.Common.{
  codes, false, is_written, none, refl, some, starts_with, text_eq, trim, true, ◌↔◌, ◌≡◌,
}
use miguel_n_ai_trackflow_pr.Session.Token.{
  Browser, Tab, read_token, read_token-refused, store_token,
}
use miguel_n_ai_trackflow_pr.Session.Paths.{
  IsSafe, Urls, has_rewritten_character, sanitize_next_path, sanitize_next_path_iff,
  without_end_slashes,
}

abbrev usual : Browser
usual = record { has_window = true; can_get = true; can_set = true; can_remove = true }

abbrev full_storage : Browser
full_storage = record { has_window = true; can_get = true; can_set = false; can_remove = true }

abbrev fresh_tab : Tab
fresh_tab = record { stored = none; memory_token = none; unauthorized_events = 0 }

abbrev old_tab : Tab
old_tab = record { stored = some (codes "old"); memory_token = none; unauthorized_events = 0 }

new_written : is_written (codes "new") ≡ true
unfolding trim
new_written = refl

old_written : is_written (codes "old") ≡ true
unfolding trim
old_written = refl

read_token-refused_example :
    read_token full_storage (store_token full_storage (codes "new") old_tab) ≡ some (codes "old")
read_token-refused_example =
    read_token-refused full_storage (codes "new") (codes "old") old_tab refl refl refl refl
      old_written

-- A platform that takes every text for a path of its own base.
abbrev simple_urls : Urls
simple_urls = record {
  param = λ search name. none;
  encode = λ t. t;
  resolve = λ value base. some (base, value);
}

paths_run :
    (sanitize_next_path simple_urls (some (codes "/incidents")) ≡ some (codes "/incidents"))
    × (sanitize_next_path simple_urls (some (codes "/login//")) ≡ none)
    × (sanitize_next_path simple_urls (some (codes "incidents")) ≡ none)
    × (sanitize_next_path simple_urls none ≡ none)
unfolding sanitize_next_path without_end_slashes has_rewritten_character starts_with text_eq
paths_run = (refl, refl, refl, refl)

sanitize_next_path_iff_example :
    (sanitize_next_path simple_urls (some (codes "/incidents")) ≡ some (codes "/incidents"))
    ↔ ((codes "/incidents" ≡ codes "/incidents") × IsSafe simple_urls (codes "/incidents"))
sanitize_next_path_iff_example =
    sanitize_next_path_iff simple_urls (codes "/incidents") (codes "/incidents")
