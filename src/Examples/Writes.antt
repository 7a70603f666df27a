-- ===== src/Examples/Writes.antt =====
-- The theorems on writes, replays, removals and reads, at the runs.
use proxmox_ovn.Prelude.{In, ◌≡◌, refl, true, false, List, [], ◌∷◌, none, some, pos, inl}
use proxmox_ovn.Text.{text, text_eq}
use proxmox_ovn.Result.{ok, err, idempotency_conflict, not_found}
use proxmox_ovn.Model.Kind.{Kind, kind_eq}
use proxmox_ovn.Model.Resource.{Resource}
use proxmox_ovn.Store.Idempotency.{Store, fingerprint, new_memory}
use proxmox_ovn.Store.Create.{create}
use proxmox_ovn.Store.Update.{update}
use proxmox_ovn.Store.Delete.{begin_delete}
use proxmox_ovn.Store.Read.{get, matches}
use proxmox_ovn.Store.Read.Listing.{IsListed, snapshot_sound, snapshot_complete}
use proxmox_ovn.Store.Versions.{DiffersAt, get-update, update-update, get-create}
use proxmox_ovn.Store.Versions.Removals.{get-purge, get-delete}
use proxmox_ovn.Store.Replay.Requests.{
  create_again, create_taken_key, update_again, begin_delete_again,
}
use proxmox_ovn.Store.Integrity.{IsClosed}
use proxmox_ovn.Store.Integrity.Histories.{Reach-IsClosed}
use proxmox_ovn.Store.Uniqueness.Rows.{IsDistinct}
use proxmox_ovn.Store.Uniqueness.Histories.{Reach-IsDistinct}
use proxmox_ovn.Store.Validity.{IsValid, Reach-IsValid}
use proxmox_ovn.Store.Everywhere.{Everywhere}
use proxmox_ovn.Examples.Data.{
  lan_store, red_store, platform, blue, green, blue_row, green_row, going_row, blue_store,
  green_store, going_store, gone_store, greener,
}
use proxmox_ovn.Examples.Runs.{
  lan_reached, red_reached, create-blue, update-green, begin_delete_green, purge_going,
  delete_green, update-greener, snapshot_blue, all_networks,
}

Reach-IsClosed_example : IsClosed lan_store.resources
Reach-IsClosed_example = Reach-IsClosed platform lan_store lan_reached

Reach-IsValid_example : Everywhere (IsValid platform) lan_store.resources
Reach-IsValid_example = Reach-IsValid platform lan_store lan_reached

Reach-IsDistinct_example : IsDistinct red_store.resources
Reach-IsDistinct_example = Reach-IsDistinct platform red_store red_reached

get-update_example :
    (get false Kind.network (text "n") green_store ≡ ok green_row)
    × (pos 2 ≡ pos 2)
    × DiffersAt Kind.network (text "n") (some green_row) blue_store.resources green_store.resources
get-update_example =
    get-update platform false 6 green (pos 1) (text "k") blue_store update-green refl

update-update_example : pos 2 ≡ pos 2
update-update_example =
    update-update platform false false 6 8 green greener (pos 1) (pos 2) (text "k") (text "l")
      blue_store refl refl update-green refl update-greener refl

get-create_example :
    (get false Kind.network (text "n") blue_store ≡ ok blue_row)
    × (pos 1 ≡ pos 1)
    × (get false Kind.network (text "n") new_memory ≡ err not_found)
    × DiffersAt Kind.network (text "n") (some blue_row) [] blue_store.resources
get-create_example = get-create platform false 5 [] blue (text "k") new_memory create-blue refl

-- The network is gone, and its replay record is left.
abbrev purged_store : Store
purged_store = record blue_store { resources = [] }

create_again_example :
    create platform false 9 (text "x") blue (text "k") purged_store
    ≡ ok (record { resource = blue_row; replayed = true; store = purged_store })
create_again_example =
    create_again platform 5 9 [] (text "x") blue (text "k") new_memory purged_store refl create-blue
      refl

create_taken_key_example :
    create platform false 9 (text "x") green (text "k") blue_store ≡ err idempotency_conflict
unfolding fingerprint
create_taken_key_example =
    create_taken_key platform 5 9 [] (text "x") blue green (text "k") new_memory refl create-blue
      refl refl

update_again_example :
    update platform false 9 green (pos 1) (text "k") green_store
    ≡ ok (record { resource = green_row; replayed = true; store = green_store })
update_again_example =
    update_again platform 6 9 green (pos 1) (text "k") blue_store refl update-green

begin_delete_again_example :
    begin_delete platform false 9 Kind.network (text "n") (pos 2) (text "k") going_store
    ≡ ok (record { resource = going_row; replayed = true; store = going_store })
begin_delete_again_example =
    begin_delete_again platform 7 9 Kind.network (text "n") (pos 2) (text "k") green_store refl
      begin_delete_green

get-purge_example :
    (get false Kind.network (text "n") gone_store ≡ err not_found)
    × DiffersAt Kind.network (text "n") none going_store.resources gone_store.resources
get-purge_example = get-purge false Kind.network (text "n") (pos 3) going_store purge_going

get-delete_example : get false Kind.network (text "n") gone_store ≡ err not_found
get-delete_example =
    get-delete platform false 7 Kind.network (text "n") (pos 2) (text "k") green_store delete_green

snapshot_sound_example : IsListed blue_store.resources all_networks Kind.network blue_row
snapshot_sound_example =
    snapshot_sound false (Kind.network ∷ []) all_networks blue_store Kind.network (blue_row ∷ [])
      blue_row snapshot_blue (inl refl) (inl refl)

snapshot_complete_example :
    (rs : List Resource) × In {A = Kind × List Resource}
      (Kind.network, rs)
      ((Kind.network, blue_row ∷ []) ∷ [])
    × In blue_row rs
unfolding matches
snapshot_complete_example =
    snapshot_complete false (Kind.network ∷ []) all_networks blue_store Kind.network blue_row
      snapshot_blue refl (inl refl) (inl refl, refl, refl)
