-- ===== src/Keys/Page/Examples.antt =====
-- The theorem of the options of a page at a search.
use nineguard.Base.{pos, []}
use nineguard.Base.Text.{codes}
use nineguard.Keys.Page.{ListOptions, normalize}
use nineguard.Keys.Page.Options.{Checked, normalize-Checked}

abbrev search : ListOptions
search = record {
  page = pos 0;
  limit = pos 37;
  sort = codes " Name ";
  order = [];
  query = codes "ci_%";
  status = codes "active";
  mode = [];
}

normalize-Checked_example : Checked search (normalize search)
normalize-Checked_example = normalize-Checked search
