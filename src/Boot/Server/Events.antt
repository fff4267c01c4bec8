-- ===== src/Boot/Server/Events.antt =====
-- hub/boot_data.go: what the notifications of the file system do to the `booter`.
use widuino.Base.{
  ℕ, List, [], Option, none, some, true, false, ◌≡◌, ◌≢◌, refl, sym, subst, ap, ◌⊎◌, inl, inr,
  arith,
}
use widuino.Base.{Bool-cases}
use widuino.Base.Dict.{
  lookup, bytes_same, bytes_same_iff, bytes_key, nat_key, lookup-insert_self, lookup-insert_ne,
}
use widuino.Base.Outcome.{Outcome, ok, err, panic}
use widuino.Boot.Hex.{read_hex, HexError}
use widuino.Boot.FilePath.{dir}
use widuino.Boot.Server.{Booter, FileName, Files, Config, BootError, read_hex_file, watch, remove}
use widuino.Boot.Server.Reload.{
  Event, read_boot_config, number_keys, insert_all, reset, after, by_cache, handle_event,
}
use widuino.Boot.Server.Laws.{IsServing, read_hex_file-IsServing}

-- Whatever the configuration holds, the cache is as it was.
read_boot_config-software :
    (config : Option Config) (b : Booter) → (read_boot_config config b).0.software ≡ b.software
unfolding read_boot_config
read_boot_config-software none b = refl
read_boot_config-software (some c) b = ground arith

outcome-cases :
    (r : Outcome HexError (List ℕ))
    → ((sw : List ℕ) × (r ≡ ok sw)) ⊎ (((e : HexError) × (r ≡ err e)) ⊎ (r ≡ panic))
outcome-cases (ok sw) = inl (sw, refl)
outcome-cases (err e) = inr (inl (e, refl))
outcome-cases panic = inr (inr refl)

after-ok : (r : Booter × Outcome BootError (Unit {0})) (b : Booter) → after r ≡ ok b → r.0 ≡ b
after-ok (b', ok x) b e = cc
after-ok (b', err x) b e = cc
after-ok (b', panic) b e = cc

by_cache-IsServing :
    (files : Files) (b b' : Booter) (name : FileName) (o : Option (List ℕ))
    → IsServing b
    → by_cache files b name o ≡ ok b'
    → IsServing b'
by_cache-IsServing files b b' name none v e =
    let same : watch (remove name) b ≡ b' = cc e in subst IsServing same v
by_cache-IsServing files b b' name (some sw) v e =
    rw (after-ok (read_hex_file files b name) b' e) at (read_hex_file-IsServing files b name v)

-- No notification that the handler survives puts the cache out of order, whatever the files hold.
handle_event-IsServing :
    (files : Files) (config : Option Config) (b b' : Booter) (event : Event)
    → IsServing b
    → handle_event files config b event ≡ ok b'
    → IsServing b'
unfolding handle_event
handle_event-IsServing files config b b' event v e = elim (Bool-cases event.changed) [
  | inr quiet ↦ let same : b ≡ b' = cc (rw quiet at e) in subst IsServing same v
  | inl changed ↦ elim (Bool-cases (bytes_same event.name b.config_file)) [
    | inl config_changed ↦
        let same : (read_boot_config config (reset b)).0 ≡ b' =
          cc (rw (changed, config_changed) at e) in
        subst IsServing same (rw (read_boot_config-software config (reset b)) tt)
    | inr other ↦
        by_cache-IsServing files b b' event.name (lookup event.name b.software) v
          (rw (changed, other) at e)
  ]
]

-- After the configuration file changes and is read without error, the `booter` has the pairings and
-- sketches of the new file and no others, looks for relative names beside the file, and serves no
-- image that it read before.
handle_event-reloads :
    (files : Files) (c : Config) (b : Booter) (event : Event)
    → event.changed ≡ true
    → event.name ≡ b.config_file
    → c.pairing_read ≡ true
    → c.sketches_read ≡ true
    → (b' : Booter) × (handle_event files (some c) b event ≡ ok b')
      × (b'.node_type ≡ insert_all c.pairing [])
      × (b'.sketch ≡ number_keys c.sketches [])
      × (b'.dir_name ≡ dir b.config_file)
      × (b'.software ≡ [])
unfolding handle_event read_boot_config
handle_event-reloads files c b event changed named p s = (
  (read_boot_config (some c) (reset b)).0,
  rw (changed, (bytes_same_iff event.name b.config_file).1 named),
  rw p (rw s refl),
  rw p (rw s refl),
  rw p (rw s refl),
  rw p (rw s refl),
)

-- What the `booter` serves for a name; `none` where the handler panics.
abbrev pub served : FileName → Outcome BootError Booter → Option (Option (List ℕ))
served name panic = none
served name (err e) = some none
served name (ok b) = some (lookup name b.software)

-- What a reading leaves of the image that was there.
abbrev pub refreshed : Option (List ℕ) → Outcome HexError (List ℕ) → Option (Option (List ℕ))
refreshed old panic = none
refreshed old (err e) = some old
refreshed old (ok sw) = some (some sw)

abbrev pub unless_panic : Option (List ℕ) → Outcome HexError (List ℕ) → Option (Option (List ℕ))
unless_panic old panic = none
unless_panic old (err e) = some old
unless_panic old (ok sw) = some old

-- When a file in the cache, which is not the configuration, is created or written and can be opened,
-- its new contents are read. If that yields an image, and be it empty, the `booter` serves this from
-- then on; if it ends in an error, the `booter` goes on with the old image; and if it panics, so does
-- the handler. What is served under any other name stays as it was, unless there is a panic.
pub handle_event-refreshes :
    (files : Files) (config : Option Config) (b : Booter) (event : Event) (old rd : List ℕ)
    (other : FileName)
    → event.changed ≡ true
    → event.name ≢ b.config_file
    → lookup event.name b.software ≡ some old
    → files event.name ≡ some rd
    → other ≢ event.name
    → (served event.name (handle_event files config b event) ≡ refreshed (some old) (read_hex rd))
      × (served other (handle_event files config b event)
          ≡ unless_panic (lookup other b.software) (read_hex rd))
unfolding handle_event read_hex_file
handle_event-refreshes files config b event old rd other changed named_else cached opened apart =
    elim (outcome-cases (read_hex rd)) [
      | inl (sw, good) ↦ (
        rw (changed, named, cached, opened, good)
            (ap some (lookup-insert_self event.name sw b.software)),
        rw (changed, named, cached, opened, good)
            (ap some (lookup-insert_ne event.name other sw b.software (λ e. apart (sym e)))),
      )
      | inr (inl (e, bad)) ↦ (
        rw (changed, named, cached, opened, bad) (ap some cached),
        rw (changed, named, cached, opened, bad) refl,
      )
      | inr (inr stop) ↦ (
        rw (changed, named, cached, opened, stop) refl,
        rw (changed, named, cached, opened, stop) refl,
      )
    ]
  where
    named : bytes_same event.name b.config_file ≡ false
    named = elim (Bool-cases (bytes_same event.name b.config_file)) [
      | inl same ↦ absurd (named_else ((bytes_same_iff event.name b.config_file).0 same))
      | inr no_match ↦ no_match
    ]
