-- ===== src/Storage/Create.antt =====
-- `create_store` of hydra/data/storage/__init__.py.
use hydra_engine.Base.{◌||◌, Option, none, some, [], ◌∷◌, drop, if◌then◌else◌}
use hydra_engine.Text.{Str, codes}
use hydra_engine.Redis.{starts_with}

pub data StoreChoice : Type 0 where
  sqlite_at : Str → StoreChoice
  postgres_at : Str → StoreChoice

-- `url.split("///", 1)[-1]`: what follows the first three slashes, or the whole text.
unfoldable pub after_slashes : Str → Option Str
unfolding starts_with
after_slashes [] = none
after_slashes (c ∷ s) =
    let rest = after_slashes s in
    if starts_with (codes "///") (c ∷ s) then some (drop 2 s) else rest

unfoldable pub path_of : Str → Str
path_of url = elim (after_slashes url) [ none ↦ url | some path ↦ path ]

-- none is the ValueError of an unknown scheme.
unfoldable pub create_store : Str → Option StoreChoice
unfolding path_of
create_store url =
    if starts_with (codes "sqlite") url
    then some (sqlite_at (path_of url))
    else if starts_with (codes "postgresql") url || starts_with (codes "postgres") url
    then some (postgres_at url)
    else none
