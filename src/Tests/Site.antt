-- ===== src/Tests/Site.antt =====
-- The theorems on domains, pages, the capacity and the history at a small site.
use lala_search.Prelude.{ℕ, ◌≡◌, refl, ◌≢◌, inl, true, Option, none, some, List, [], ◌∷◌}
use lala_search.Prelude.Text.{Text, codes, text_eq, strip_prefix}
use lala_search.Prelude.Integers.{pos, is_positive}
use lala_search.Prelude.Table.{exists_row, update_rows, upsert_row, select_all, first_row, first_of}
use lala_search.Models.History.{
  ActionRecord, create, allowed_domain, parse_action, parse_entity, entity_text, action_text,
  str_field,
}
use lala_search.Models.Pages.{CrawledPage, gzip}
use lala_search.Models.Rows.{AllowedDomainRow}
use lala_search.World.{
  World, ok, continue, pure, or_raise, fetch, write, write_if, tick, now, draw_uuid, ◌>>=◌,
}
use lala_search.Crawl.Queue.{set_setting, upsert_setting}
use lala_search.Site.Domains.{
  domain_snapshot, is_domain_allowed, insert_allowed_domain, delete_allowed_domain,
}
use lala_search.Site.Allowed.{
  insert_call, delete_call, run_call, run_calls, after_calls, allowed_in, DomainCall,
  run_calls-is_domain_allowed,
}
use lala_search.Site.Pages.{upsert_crawled_page, get_crawled_page}
use lala_search.Site.PageKeys.{in_place_of, page_at, upsert_crawled_page-get_crawled_page}
use lala_search.Site.Capacity.{set_index_capacity_bytes, get_index_capacity_bytes}
use lala_search.Site.CapacityRead.{set_index_capacity_bytes-get_index_capacity_bytes}
use lala_search.Site.History.{
  mark_action_rolled_back, insert_action, record_action, get_last_undoable_action,
}
use lala_search.Site.Rollback.{
  base_description, rollback_description, required_field, restore_from, apply_rollback,
  apply_rollback_delete, apply_rollback_restore, apply_rollback_edit, apply_rollback_undo_rollback,
  rollback_found, rollback_action,
}
use lala_search.Site.Undo.Once.{records, at_once, after_step, rollback_action-once}
use lala_search.Site.Undo.Domains.{added, IsOn, not_yet, once_more, flips, rollback_action-flips}
use lala_search.Site.Undo.Edits.{IsEdit, value_in, rollback_action-edits}
use lala_search.Tests.Auth.{env, world}
use lala_search.Tests.Crawl.{client}

abbrev pub no_uuid : Text → Option ℕ
no_uuid s = none

abbrev site_domain : AllowedDomainRow
site_domain = record {
  tenant_id = 7;
  domain = codes "x.io";
  added_by = some (codes "me");
  notes = none;
  added_at = 5;
  deleted_at = none;
}

abbrev action : ActionRecord
action = record {
  action_id = 1;
  tenant_id = 7;
  performed_by = none;
  performed_at = 5;
  rolled_back_at = none;
  rollback_of = none;
  entity_type = codes "allowed_domain";
  action_type = codes "create";
  entity_id = codes "x.io";
  before_state = none;
  after_state = some (domain_snapshot (codes "x.io") (some (codes "me")) none);
  description = codes "Added";
}

abbrev undone : ActionRecord
undone = record {
  action_id = 50;
  tenant_id = 7;
  performed_by = none;
  performed_at = 1002;
  rolled_back_at = none;
  rollback_of = some 1;
  entity_type = codes "allowed_domain";
  action_type = codes "rollback";
  entity_id = codes "x.io";
  before_state = some (domain_snapshot (codes "x.io") (some (codes "me")) none);
  after_state = none;
  description = codes "Rolled back: Added";
}

abbrev pub site_world : World
site_world = record world {
  db = record (world.db) {
    site = record {
      allowed_domains = site_domain ∷ [];
      crawled_pages = [];
      action_history = action ∷ [];
    };
  };
}

abbrev calls : List DomainCall
calls = delete_call client (codes "x.io") ∷ insert_call client (codes "y.io") (codes "me") none ∷ []

abbrev after_calls_world : World
after_calls_world = (run_calls env calls site_world).1

calls_done : run_calls env calls site_world ≡ (ok tt, after_calls_world)
unfolding run_calls run_call insert_allowed_domain delete_allowed_domain ◌>>=◌ continue pure write
    write_if tick exists_row update_rows upsert_row text_eq
calls_done = refl

run_calls-is_domain_allowed_example :
    (is_domain_allowed env client (codes "y.io") after_calls_world).0
    ≡ ok (after_calls calls (allowed_in site_world.db) 7 (codes "y.io"))
run_calls-is_domain_allowed_example =
    run_calls-is_domain_allowed env calls client (codes "y.io") site_world after_calls_world
      calls_done refl

abbrev undone_world : World
undone_world = (rollback_action no_uuid env client action none site_world).1

undo_done : rollback_action no_uuid env client action none site_world ≡ (ok undone, undone_world)
unfolding rollback_action rollback_found apply_rollback apply_rollback_delete delete_allowed_domain
    mark_action_rolled_back record_action insert_action rollback_description base_description
    strip_prefix parse_action parse_entity entity_text action_text ◌>>=◌ continue pure or_raise now
    draw_uuid write write_if tick exists_row update_rows text_eq
undo_done = refl

-- Somebody adds another domain after the undo.
abbrev later_world : World
later_world =
    (record_action env client allowed_domain create (codes "y.io") none none none (codes "Added")
      none undone_world).1

abbrev other_action : ActionRecord
other_action = record {
  action_id = 51;
  tenant_id = 7;
  performed_by = none;
  performed_at = 1003;
  rolled_back_at = none;
  rollback_of = none;
  entity_type = codes "allowed_domain";
  action_type = codes "create";
  entity_id = codes "y.io";
  before_state = none;
  after_state = none;
  description = codes "Added";
}

other_next :
    get_last_undoable_action env client later_world
    ≡ (ok (some other_action), (get_last_undoable_action env client later_world).1)
unfolding get_last_undoable_action fetch tick rollback_action rollback_found apply_rollback
    apply_rollback_delete delete_allowed_domain mark_action_rolled_back record_action insert_action
    rollback_description base_description strip_prefix parse_action parse_entity entity_text
    action_text ◌>>=◌ continue pure or_raise now draw_uuid write write_if exists_row update_rows
    text_eq select_all first_row first_of
other_next = refl

rollback_action-once_example : other_action.action_id ≢ action.action_id
rollback_action-once_example =
    rollback_action-once no_uuid env client action none site_world undone undone_world undo_done
      later_world
      (after_step at_once
        (records client allowed_domain create (codes "y.io") none none none (codes "Added") none))
      client other_action (get_last_undoable_action env client later_world).1 (inl other_next)

action-IsOn : IsOn (codes "x.io") action true
unfolding entity_text action_text str_field text_eq
action-IsOn = record { entity = refl; named = refl; did = added refl _ refl refl }

rollback_action-flips_example : allowed_in undone_world.db 7 (codes "x.io") ≡ flips 1 true
rollback_action-flips_example =
    rollback_action-flips no_uuid env client (codes "x.io") action true 0 undone undone_world
      action-IsOn
      (once_more 0 action site_world (not_yet site_world) site_world none undone undone_world
        undo_done)

abbrev switch : ActionRecord
switch = record {
  action_id = 2;
  tenant_id = 7;
  performed_by = none;
  performed_at = 5;
  rolled_back_at = none;
  rollback_of = none;
  entity_type = codes "setting";
  action_type = codes "edit";
  entity_id = codes "k";
  before_state = some ((codes "key", some (codes "k")) ∷ (codes "value", some (codes "a")) ∷ []);
  after_state = some ((codes "key", some (codes "k")) ∷ (codes "value", some (codes "b")) ∷ []);
  description = codes "Set";
}

abbrev switch_undone : ActionRecord
switch_undone = record switch {
  action_id = 50;
  performed_at = 1002;
  rollback_of = some 2;
  action_type = codes "rollback";
  before_state = switch.after_state;
  after_state = switch.before_state;
  description = codes "Rolled back: Set";
}

abbrev switch_redone : ActionRecord
switch_redone = record switch_undone {
  action_id = 51;
  performed_at = 1005;
  rollback_of = some 50;
  before_state = switch.before_state;
  after_state = switch.after_state;
  description = codes "Redone: Set";
}

abbrev switch_world : World
switch_world = record world {
  db = record (world.db) {
    settings =
        record {
          tenant_id = 7;
          setting_key = codes "k";
          setting_value = some (codes "b");
          updated_at = 5;
        }
        ∷ [];
    site = record { allowed_domains = []; crawled_pages = []; action_history = switch ∷ [] };
  };
}

abbrev switch_undone_world : World
switch_undone_world = (rollback_action no_uuid env client switch none switch_world).1

abbrev switch_redone_world : World
switch_redone_world = (rollback_action no_uuid env client switch_undone none switch_undone_world).1

switch_undo_done :
    rollback_action no_uuid env client switch none switch_world
    ≡ (ok switch_undone, switch_undone_world)
unfolding rollback_action rollback_found apply_rollback apply_rollback_edit apply_rollback_restore
    restore_from required_field str_field set_setting upsert_setting mark_action_rolled_back
    record_action insert_action rollback_description base_description strip_prefix parse_action
    parse_entity entity_text action_text ◌>>=◌ continue pure or_raise now draw_uuid write write_if
    tick exists_row update_rows text_eq
switch_undo_done = refl

switch_redo_done :
    rollback_action no_uuid env client switch_undone none switch_undone_world
    ≡ (ok switch_redone, switch_redone_world)
unfolding rollback_action rollback_found apply_rollback apply_rollback_edit apply_rollback_restore
    apply_rollback_undo_rollback restore_from required_field str_field set_setting upsert_setting
    mark_action_rolled_back record_action insert_action rollback_description base_description
    strip_prefix parse_action parse_entity entity_text action_text ◌>>=◌ continue pure or_raise now
    draw_uuid write write_if tick exists_row update_rows text_eq
switch_redo_done = refl

switch-IsEdit : IsEdit (codes "k") (codes "a") (codes "b") switch
unfolding entity_text action_text str_field text_eq
switch-IsEdit = record {
  entity = refl;
  action = refl;
  before = record { it = _; is_there = refl; of_key = refl; of_value = refl };
  after = record { it = _; is_there = refl; of_key = refl; of_value = refl };
}

rollback_action-edits_example :
    (value_in client (codes "k") switch_undone_world.db ≡ some (codes "a"))
    × (value_in client (codes "k") switch_redone_world.db ≡ some (codes "a"))
rollback_action-edits_example =
    rollback_action-edits no_uuid env client (codes "k") (codes "a") (codes "b") switch
      switch_undone switch_redone none none switch_world switch_undone_world switch_undone_world
      switch_redone_world switch-IsEdit switch_undo_done switch_redo_done

abbrev pub page : CrawledPage
page = record {
  page_id = 9;
  tenant_id = 7;
  domain = codes "x.io";
  url_path = codes "/";
  url = codes "https://x.io/";
  storage_id = some 8;
  storage_compression = gzip;
  last_crawled_at = 5;
  next_crawl_at = 6;
  crawl_frequency_hours = pos 24;
  http_status = pos 200;
  content_hash = codes "h";
  content_length = pos 3;
  indexed_document_bytes = none;
  robots_allowed = true;
  error_message = none;
  crawl_count = pos 1;
  created_at = 5;
  updated_at = 5;
}

abbrev page_world : World
page_world = (upsert_crawled_page env page site_world).1

page_done : upsert_crawled_page env page site_world ≡ (ok tt, page_world)
unfolding upsert_crawled_page write_if tick exists_row
page_done = refl

upsert_crawled_page-get_crawled_page_example :
    (get_crawled_page env client (codes "x.io") (codes "/") page_world).0
    ≡ ok (some (in_place_of (page_at 7 (codes "x.io") (codes "/") site_world.db) page))
unfolding text_eq
upsert_crawled_page-get_crawled_page_example =
    upsert_crawled_page-get_crawled_page env page client (codes "x.io") (codes "/") site_world
      page_world page_done refl

abbrev pub capacity_world : World
capacity_world = (set_index_capacity_bytes env client (pos 12) site_world).1

capacity_done : set_index_capacity_bytes env client (pos 12) site_world ≡ (ok tt, capacity_world)
unfolding set_index_capacity_bytes set_setting write_if tick exists_row
capacity_done = refl

set_index_capacity_bytes-get_index_capacity_bytes_example :
    (is_positive (pos 12) ≡ true)
    × ((get_index_capacity_bytes env client capacity_world).0 ≡ ok (pos 12))
set_index_capacity_bytes-get_index_capacity_bytes_example =
    set_index_capacity_bytes-get_index_capacity_bytes env client (pos 12) site_world capacity_world
      refl capacity_done refl
