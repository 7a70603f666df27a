-- ===== src/Store/Read/Listing.antt =====
-- Snapshot lists what is stored, of the requested kinds and through the filters, and no more
-- than the limit of each kind.
use proxmox_ovn.Prelude.{
  ℕ, zero, suc, ◌≤◌, ◌≡◌, ◌↔◌, refl, sym, ap, subst, ◌∙◌, inl, inr, Bool, true, false, ◌&&◌, List,
  [], ◌∷◌, arith, any, ℤ, pos, negsuc, ltb_ℤ, ltb, length, take, select, In, In-take, In-select,
  select-In, In-sort, sort-In, sort, Bool-cases, if-keeps, ==→≡, ==_iff, ◌==◌,
}
use proxmox_ovn.Result.{ok, cancelled, conflict, then-ok, refuse, ok_inj}
use proxmox_ovn.Model.Kind.{Kind, kind_eq}
use proxmox_ovn.Model.Resource.{Resource, resource_kind}
use proxmox_ovn.Store.Table.{Table}
use proxmox_ovn.Store.Idempotency.{Store}
use proxmox_ovn.Store.Retention.{to_ℕ}
use proxmox_ovn.Store.Read.{
  ListOptions, matches, limited, listed_before, snapshot_kind, snapshot, requested_kinds, tabulate,
}

-- A resource of the table that a listing of the kind asks for.
abbrev pub IsListed : Table → ListOptions → Kind → Resource → Type 0
IsListed t options kind r = In r t × (resource_kind r ≡ kind) × (matches r.body options ≡ true)

limited-In : (limit : ℤ) (xs : List Resource) (r : Resource) → In r (limited limit xs) → In r xs
unfolding limited
limited-In limit xs r m =
    if-keeps (λ ys. In r ys → In r xs) (ltb_ℤ (pos 0) limit && ltb (to_ℕ limit) (length xs))
      (take (to_ℕ limit) xs) xs (In-take (to_ℕ limit) xs r) (λ n. n) m

unlimited : (xs : List Resource) → limited (pos 0) xs ≡ xs
unfolding limited
unlimited xs = refl

wanted_iff :
    (options : ListOptions) (kind : Kind) (r : Resource)
    → ((resource_kind r == kind && matches r.body options) ≡ true)
      ↔ ((resource_kind r ≡ kind) × (matches r.body options ≡ true))
wanted_iff options kind r = ground (arith, ==_iff (resource_kind r) kind)

-- What is listed of a kind is stored, of that kind, and passes the filters.
snapshot_kind-IsListed :
    (t : Table) (options : ListOptions) (kind : Kind) (r : Resource)
    → In r (snapshot_kind t options kind)
    → IsListed t options kind r
unfolding snapshot_kind
snapshot_kind-IsListed t options kind r m =
    let wanted = λ (x : Resource). resource_kind x == kind && matches x.body options in
    let (n, hit) = In-select wanted t r (
      In-sort (listed_before options.recent_first) (select wanted t) r
        (limited-In options.limit _ r m)) in
    let (same, passes) = (wanted_iff options kind r).0 hit in (n, same, passes)

-- Without a limit everything that is asked for is listed.
listed_without_limit :
    (t : Table) (options : ListOptions) (kind : Kind) (r : Resource)
    → options.limit ≡ pos 0
    → IsListed t options kind r
    → In r (snapshot_kind t options kind)
unfolding snapshot_kind
listed_without_limit t options kind r e (n, same, passes) =
    let test = λ (x : Resource). resource_kind x == kind && matches x.body options in
    let all = sort (listed_before options.recent_first) (select test t) in
    subst (λ limit. In r (limited limit all)) (sym e)
      (subst (In r) (sym (unlimited all)) (
        sort-In (listed_before options.recent_first) (select test t) r
          (select-In test t r n ((wanted_iff options kind r).1 (same, passes)))))

take_bounded : (n : ℕ) (xs : List Resource) → length (take n xs) ≤ n
take_bounded zero xs = ground arith
take_bounded (suc n) [] = ground arith
take_bounded (suc n) (x ∷ xs) = ground (arith, take_bounded n xs)

limited_bounded :
    (limit : ℤ) (xs : List Resource)
    → ltb_ℤ (pos 0) limit ≡ true
    → length (limited limit xs) ≤ to_ℕ limit
unfolding limited
limited_bounded (pos n) xs h = ground (arith, take_bounded n xs)
limited_bounded (negsuc n) xs h = absurd (ground arith)

snapshot_kind_bounded :
    (t : Table) (options : ListOptions) (kind : Kind)
    → ltb_ℤ (pos 0) options.limit ≡ true
    → length (snapshot_kind t options kind) ≤ to_ℕ options.limit
unfolding snapshot_kind
snapshot_kind_bounded t options kind h = limited_bounded options.limit _ h

-- Every requested kind that was not seen yet is requested.
requested :
    (seen ks : List Kind) (kind : Kind)
    → In kind ks
    → any (λ other. other == kind) seen ≡ false
    → In kind (requested_kinds seen ks)
unfolding requested_kinds
requested seen [] kind m h = elim m [ ]
requested seen (k ∷ ks) kind (inl e) h =
    let miss : any (λ other. other == k) seen ≡ false = rw e h in rw miss (inl e)
requested seen (k ∷ ks) kind (inr m) h = elim (Bool-cases (any (λ other. other == k) seen)) [
  | inl hit ↦ rw hit (requested seen ks kind m h)
  | inr miss ↦ elim (Bool-cases (k == kind)) [
    | inl same ↦ rw miss (inl (==→≡ k kind same))
    | inr other ↦ rw miss (inr (requested (k ∷ seen) ks kind m (ground arith)))
  ]
]

tabulated :
    (t : Table) (options : ListOptions) (ks : List Kind) (kind : Kind)
    → In kind ks
    → In (kind, snapshot_kind t options kind) (tabulate t options ks)
unfolding tabulate
tabulated t options [] kind m = elim m [ ]
tabulated t options (k ∷ ks) kind (inl e) = inl (ap (λ x. (x, snapshot_kind t options x)) e)
tabulated t options (k ∷ ks) kind (inr m) = inr (tabulated t options ks kind m)

tabulated_only :
    (t : Table) (options : ListOptions) (ks : List Kind) (kind : Kind) (rs : List Resource)
    → In (kind, rs) (tabulate t options ks)
    → rs ≡ snapshot_kind t options kind
unfolding tabulate
tabulated_only t options [] kind rs m = elim m [ ]
tabulated_only t options (k ∷ ks) kind rs (inl e) =
    sym (ap (λ (x : Kind × List Resource). x.1) e)
    ∙ ap (λ (x : Kind × List Resource). snapshot_kind t options x.0) e
tabulated_only t options (k ∷ ks) kind rs (inr m) = tabulated_only t options ks kind rs m

snapshot_table :
    (done : Bool) (wanted : List Kind) (options : ListOptions) (s : Store)
    {lists : List (Kind × List Resource)}
    → snapshot done wanted options s ≡ ok lists
    → tabulate s.resources options (requested_kinds [] wanted) ≡ lists
unfolding snapshot
snapshot_table done wanted options s h =
    let (_, rest) = then-ok (refuse done cancelled) _ h in
    ok_inj (then-ok (refuse (ltb_ℤ options.limit (pos 0)) conflict) _ rest).1

only :
    (done : Bool) (wanted : List Kind) (options : ListOptions) (s : Store)
    {lists : List (Kind × List Resource)} (kind : Kind) (rs : List Resource)
    → snapshot done wanted options s ≡ ok lists
    → In (kind, rs) lists
    → rs ≡ snapshot_kind s.resources options kind
only done wanted options s kind rs h m =
    tabulated_only s.resources options (requested_kinds [] wanted) kind rs
      (subst (In (kind, rs)) (sym (snapshot_table done wanted options s h)) m)

-- Whatever a Snapshot lists under a kind is stored, is of that kind, and passes the filters.
pub snapshot_sound :
    (done : Bool) (wanted : List Kind) (options : ListOptions) (s : Store)
    {lists : List (Kind × List Resource)} (kind : Kind) (rs : List Resource) (r : Resource)
    → snapshot done wanted options s ≡ ok lists
    → In (kind, rs) lists
    → In r rs
    → IsListed s.resources options kind r
snapshot_sound done wanted options s kind rs r h m n =
    snapshot_kind-IsListed s.resources options kind r
      (subst (In r) (only done wanted options s kind rs h m) n)

-- A Snapshot without a limit lists, under each requested kind, every stored resource of the kind
-- that passes the filters.
pub snapshot_complete :
    (done : Bool) (wanted : List Kind) (options : ListOptions) (s : Store)
    {lists : List (Kind × List Resource)} (kind : Kind) (r : Resource)
    → snapshot done wanted options s ≡ ok lists
    → options.limit ≡ pos 0
    → In kind wanted
    → IsListed s.resources options kind r
    → (rs : List Resource) × In (kind, rs) lists × In r rs
snapshot_complete done wanted options s kind r h free m listed = (
  snapshot_kind s.resources options kind,
  subst (In (kind, snapshot_kind s.resources options kind)) (snapshot_table done wanted options s h)
      (tabulated s.resources options (requested_kinds [] wanted) kind
        (requested [] wanted kind m refl)),
  listed_without_limit s.resources options kind r free listed,
)

-- Under a positive limit no list of a Snapshot is longer than the limit.
pub snapshot_bounded :
    (done : Bool) (wanted : List Kind) (options : ListOptions) (s : Store)
    {lists : List (Kind × List Resource)} (kind : Kind) (rs : List Resource)
    → snapshot done wanted options s ≡ ok lists
    → ltb_ℤ (pos 0) options.limit ≡ true
    → In (kind, rs) lists
    → length rs ≤ to_ℕ options.limit
snapshot_bounded done wanted options s kind rs h positive m =
    subst (λ (xs : List Resource). length xs ≤ to_ℕ options.limit)
      (sym (only done wanted options s kind rs h m))
      (snapshot_kind_bounded s.resources options kind positive)
