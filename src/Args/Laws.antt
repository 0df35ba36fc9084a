-- ===== src/Args/Laws.antt =====
-- Which categories the flags enable.
use mcp_web_search.Base.{Bool, any, ◌||◌, ◌≡◌, arith}
use mcp_web_search.Args.{Args, enabled_categories}
use mcp_web_search.Tools.{ToolCategory, search, scrape, fetch, crawl, category_eq}

-- The flag of a category.
abbrev flag_of : ToolCategory → Args → Bool
flag_of search a = a.enable_search
flag_of scrape a = a.enable_scrape
flag_of fetch a = a.enable_fetch
flag_of crawl a = a.enable_crawl

-- A category is enabled exactly when `--enable-all` or its own flag is given.
pub any-enabled_categories :
    (c : ToolCategory) (a : Args)
    → any (category_eq c) (enabled_categories a) ≡ (a.enable_all || flag_of c a)
unfolding enabled_categories
any-enabled_categories search a = ground arith
any-enabled_categories scrape a = ground arith
any-enabled_categories fetch a = ground arith
any-enabled_categories crawl a = ground arith
