-- ===== src/Models/Search.antt =====
-- lala-agent/src/models/search.rs: what the search server is given of a page.
use lala_search.Prelude.{ℕ, Option}
use lala_search.Prelude.Text.{Text}
use lala_search.Prelude.Integers.{ℤ}

pub record IndexedDocument : Type 0 where
  pub id : Text
  pub tenant_id : Option Text
  pub url : Text
  pub domain : Text
  pub title : Option Text
  pub content : Text
  pub excerpt : Text
  pub crawled_at : ℕ
  pub http_status : ℤ
