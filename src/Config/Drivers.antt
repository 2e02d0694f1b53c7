-- ===== src/Config/Drivers.antt =====
-- The URLs of the two engines, which `async_database_url` and `sync_database_url` of app/config.py derive
-- from one setting. SQLAlchemy's URL is a type with the operations that the program calls.
use ping_gaurd.Prelude.{◌≡◌, Text, codes, Option, none, some, inl, inr, arith, Option-cases}

-- `make_url`, where `none` is an exception; `url.set(drivername=...)`; `url.render_as_string(...)`.
pub record UrlOperations (U : Type 0) : Type 0 where
  pub make_url : Text → Option U
  pub set_driver : Text → U → U
  pub render_as_string : U → Text

module _ {U : Type 0} (urls : UrlOperations U) where
  open urls use {make_url, set_driver, render_as_string}

  unfoldable pub async_database_url : (database_url : Text) → Option Text
  async_database_url database_url = elim (make_url database_url) [
    | none ↦ none
    | some url ↦ some (render_as_string (set_driver (codes "postgresql+asyncpg") url))
  ]

  unfoldable pub sync_database_url : (database_url : Text) → Option Text
  sync_database_url database_url = elim (make_url database_url) [
    | none ↦ none
    | some url ↦ some (render_as_string (set_driver (codes "postgresql+psycopg2") url))
  ]

  -- Where a URL is read back from its text, and the last driver set counts, the setting may name either
  -- driver: from the URL of the API's engine comes the same URL for the worker's as from the setting.
  sync_from_async :
      (database_url : Text) {url : Text}
      → ((u : U) → make_url (render_as_string u) ≡ some u)
      → ((d e : Text) (u : U) → set_driver d (set_driver e u) ≡ set_driver d u)
      → async_database_url database_url ≡ some url
      → sync_database_url url ≡ sync_database_url database_url
  unfolding async_database_url sync_database_url
  sync_from_async database_url {url} reads last h = elim (Option-cases (make_url database_url)) [
    | inl failed ↦ absurd (ground arith)
    | inr (u, made) ↦
        let driven = set_driver (codes "postgresql+asyncpg") u in
        let same = last (codes "postgresql+psycopg2") (codes "postgresql+asyncpg") u in
        ground (arith, reads driven)
  ]
