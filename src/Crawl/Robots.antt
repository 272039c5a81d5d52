-- ===== src/Crawl/Robots.antt =====
-- lala-agent/src/services/queue_processor.rs: the directives for robots in a page and in its header.
use lala_search.Prelude.{
  Bool, true, false, ◌||◌, Option, none, some, List, [], ◌∷◌, unwrap_or, if◌then◌else◌,
}
use lala_search.Prelude.Text.{Text, codes, to_lowercase, contains, eq_ignore_ascii_case}
use lala_search.Crawl.Web.{Meta}

pub record RobotsMetaDirectives : Type 0 where
  pub noindex : Bool
  pub nofollow : Bool

abbrev pub no_directives : RobotsMetaDirectives
no_directives = record { noindex = false; nofollow = false }

unfoldable pub merge : RobotsMetaDirectives → RobotsMetaDirectives → RobotsMetaDirectives
merge a b = record { noindex = a.noindex || b.noindex; nofollow = a.nofollow || b.nofollow }

unfoldable pub parse_robots_directive_string : Text → RobotsMetaDirectives
parse_robots_directive_string content =
    let content_lower = to_lowercase content in
    if contains (codes "none") content_lower
    then record { noindex = true; nofollow = true }
    else record {
      noindex = contains (codes "noindex") content_lower;
      nofollow = contains (codes "nofollow") content_lower;
    }

unfoldable pub parse_x_robots_tag : Option Text → RobotsMetaDirectives
parse_x_robots_tag none = no_directives
parse_x_robots_tag (some value) = parse_robots_directive_string value

-- The first `meta` with the name `robots`, in any case of letters, decides.
unfoldable pub extract_robots_meta_directives : List Meta → RobotsMetaDirectives
extract_robots_meta_directives [] = no_directives
extract_robots_meta_directives (m ∷ metas) =
    let others = extract_robots_meta_directives metas in
    if eq_ignore_ascii_case m.name (codes "robots")
    then parse_robots_directive_string (unwrap_or m.content [])
    else others

unfoldable pub get_robots_directives : List Meta → Option Text → RobotsMetaDirectives
get_robots_directives metas x_robots_tag =
    merge (extract_robots_meta_directives metas) (parse_x_robots_tag x_robots_tag)
