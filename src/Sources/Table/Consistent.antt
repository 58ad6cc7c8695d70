-- ===== src/Sources/Table/Consistent.antt =====
-- src/sources.rs: the kinds and the loaders of the table of sites.
use agent_transcript.Prelude.{
  Bytes, ◌≡◌, refl, Bool, true, false, Option, none, some, List, [], ◌∷◌, All,
}
use agent_transcript.Sources.{
  Load, Loader, path, db, Site, Kind, files, session_dirs, grok_bot_dirs,
}
use agent_transcript.Sources.Table.{
  LocalIds, FileStore, DbStore, Defaults, concat-All, file_site, db_site, antigravity_stores,
  antigravity_sites, grok_bot_sites, site_lists, sites,
}

-- A site is scanned as a database exactly if its loader is one of a database.
abbrev pub is_consistent : {T : Type 0} → Kind → Loader T → Bool
is_consistent Kind.db (db discovered load) = true
is_consistent Kind.db (path load) = false
is_consistent (files rule exclude_dirs) (path load) = true
is_consistent (files rule exclude_dirs) (db discovered load) = false
is_consistent (session_dirs markers) (path load) = true
is_consistent (session_dirs markers) (db discovered load) = false
is_consistent grok_bot_dirs (path load) = true
is_consistent grok_bot_dirs (db discovered load) = false

module _ {H T : Type 0} where
  abbrev pub IsConsistent : Site H T → Type 0
  IsConsistent s = is_consistent s.kind s.loader ≡ true

  file_site-IsConsistent :
      (harness : H) (kind : Kind) (s : Option (FileStore T))
      → ((load : Bytes → Load T) → is_consistent kind (path load) ≡ true)
      → All IsConsistent (file_site harness kind s)
  file_site-IsConsistent harness kind none e = tt
  file_site-IsConsistent harness kind (some s) e = (e s.load, tt)

  db_site-IsConsistent :
      (harness : H) (below : Bytes → Bytes) (s : Option (DbStore T))
      → All IsConsistent (db_site harness below s)
  db_site-IsConsistent harness below none = tt
  db_site-IsConsistent harness below (some s) = (refl, tt)

  antigravity_sites-IsConsistent :
      (harness : H) (stores : List (FileStore T))
      → All IsConsistent (antigravity_sites harness stores)
  unfolding antigravity_sites
  antigravity_sites-IsConsistent harness [] = tt
  antigravity_sites-IsConsistent harness (s ∷ stores) =
      (refl, antigravity_sites-IsConsistent harness stores)

  grok_bot_sites-IsConsistent :
      (harness : H) (s agents : Option (FileStore T))
      → All IsConsistent (grok_bot_sites harness s agents)
  unfolding grok_bot_sites
  grok_bot_sites-IsConsistent harness none agents = tt
  grok_bot_sites-IsConsistent harness (some s) agents =
      (refl, file_site-IsConsistent harness grok_bot_dirs agents (λ load. refl))

  -- The table declares as databases exactly the sites that a database store loads, so that no scan
  -- asks a store of files for its sessions.
  pub sites-IsConsistent : (id : LocalIds H) (d : Defaults T) → All IsConsistent (sites id d)
  unfolding sites site_lists
  sites-IsConsistent id d = concat-All IsConsistent (site_lists id d) (
    file_site-IsConsistent id.claude_code _ d.claude (λ load. refl),
    (
      file_site-IsConsistent id.codex _ d.codex (λ load. refl),
      (
        file_site-IsConsistent id.pi _ d.pi (λ load. refl),
        (
          file_site-IsConsistent id.campfire _ d.campfire (λ load. refl),
          (
            file_site-IsConsistent id.cursor _ d.cursor (λ load. refl),
            (
              file_site-IsConsistent id.amp _ d.amp (λ load. refl),
              (
                antigravity_sites-IsConsistent id.antigravity (antigravity_stores d),
                (
                  file_site-IsConsistent id.cowork _ d.cowork (λ load. refl),
                  (
                    file_site-IsConsistent id.grok _ d.grok (λ load. refl),
                    (
                      grok_bot_sites-IsConsistent id.grok_bot d.grok_bot d.grok_agents,
                      (
                        file_site-IsConsistent id.fx _ d.fx (λ load. refl),
                        (
                          db_site-IsConsistent id.hermes _ d.hermes,
                          (
                            db_site-IsConsistent id.cursor_desktop _ d.cursor_desktop,
                            (db_site-IsConsistent id.opencode _ d.opencode, tt),
                          ),
                        ),
                      ),
                    ),
                  ),
                ),
              ),
            ),
          ),
        ),
      ),
    ),
  )
