-- ===== src/Authenticator/Store/Maps.antt =====
-- What each step of a Store operation leaves at every key of the three maps.
use holos_substrate.Base.{◌≡◌, ◌&&◌, none, some, arith, if◌then◌else◌}
use holos_substrate.Base.Text.{Text, ◌==◌}
use holos_substrate.Base.Dict.{lookup, lookup-insert, lookup-erase}
use holos_substrate.Authenticator.Entry.{Entry}
use holos_substrate.Authenticator.Store.{Store, owns, forget, take_over}

module _ (key host : Text) (s : Store) (h : Text) where
  pub entries-forget :
      lookup h (forget key host s).entries
      ≡ (if owns key (lookup host s.owner_by_host) && host == h then none else lookup h s.entries)
  unfolding forget
  entries-forget = ground (arith, lookup-erase h host s.entries)

  pub owner-forget : lookup h (forget key host s).owner_by_host ≡ (
      if owns key (lookup host s.owner_by_host) && host == h
      then none
      else lookup h s.owner_by_host)
  unfolding forget
  owner-forget = ground (arith, lookup-erase h host s.owner_by_host)

  pub host-forget :
      lookup h (forget key host s).host_by_key ≡ (if key == h then none else lookup h s.host_by_key)
  unfolding forget
  host-forget = ground (arith, lookup-erase h key s.host_by_key)

module _ (key : Text) (entry : Entry) (s : Store) (h : Text) where
  pub entries-take_over :
      lookup h (take_over key entry s).entries
      ≡ (if entry.host == h then some entry else lookup h s.entries)
  unfolding take_over
  entries-take_over = lookup-insert h entry.host entry s.entries

  pub owner-take_over :
      lookup h (take_over key entry s).owner_by_host
      ≡ (if entry.host == h then some key else lookup h s.owner_by_host)
  unfolding take_over
  owner-take_over = lookup-insert h entry.host key s.owner_by_host

  pub host-take_over :
      lookup h (take_over key entry s).host_by_key
      ≡ (if key == h then some entry.host else lookup h s.host_by_key)
  unfolding take_over
  host-take_over = lookup-insert h key entry.host s.host_by_key
