-- ===== src/Notices/Created.antt =====
-- AsnService.create: what a notice that was accepted refers to.
use warehousehub.Base.{
  ℕ, ◌≡◌, subst, refl, ◌∙◌, true, false, Option, none, some, List, [], ◌∷◌, ◌==◌, map, unique,
  contains, All, All-map, exists_by, length, ltb, Bool-cases, Option-cases, inl, inr,
}
use warehousehub.Db.{
  Store, Branch, Warehouse, Asn, AsnLine, AsnStatus, is_pending_asn, Engine, IsEngine, Post,
  Post-bind, insert_asn, throw_if, bad_request, invalid_item,
}
use warehousehub.Transfers.{find_warehouse}
use warehousehub.Notices.{
  NewAsn, find_branch, check_from_branch, check_from_warehouse, found_ids, missing_ids,
  check_notice, create_asn,
}
use warehousehub.Notices.Items.{is_active_item, All-of_none, All-unique, found-exists}

-- A place that the request names is the company's.
abbrev BranchKnown : ℕ → Option ℕ → Store → Type 0
BranchKnown company none s = Unit {0}
BranchKnown company (some id) s = (b : Branch) × (find_branch company id s ≡ some b)

abbrev WarehouseKnown : ℕ → Option ℕ → Store → Type 0
WarehouseKnown company none s = Unit {0}
WarehouseKnown company (some id) s = (w : Warehouse) × (find_warehouse company id s ≡ some w)

-- What a checked request satisfies in the store.
pub record IsChecked (company : ℕ) (dto : NewAsn) (s : Store) : Type 0 where
  pub target : Warehouse
  pub target_found : find_warehouse company dto.to_warehouse s ≡ some target
  pub from_branch_known : BranchKnown company dto.from_branch s
  pub from_warehouse_known : WarehouseKnown company dto.from_warehouse s
  pub in_branch : (target.branch == dto.to_branch) ≡ true
  pub active_items : All (λ l. exists_by (is_active_item company l.item) s.items ≡ true) dto.lines

items_of_lines :
    (P : ℕ → Type 0) (ls : List AsnLine)
    → All P (map (λ (l : AsnLine). l.item) ls)
    → All (λ l. P l.item) ls
items_of_lines P [] h = tt
items_of_lines P (l ∷ ls) h = (h.0, items_of_lines P ls h.1)

check_from_branch-BranchKnown :
    (company : ℕ) (o : Option ℕ) (s : Store)
    → Post (λ _ t. (t ≡ s) × BranchKnown company o s) (check_from_branch company o s)
unfolding check_from_branch
check_from_branch-BranchKnown company none s = (refl, tt)
check_from_branch-BranchKnown company (some id) s = elim (Option-cases (find_branch company id s)) [
  | inl missing ↦ rw missing tt
  | inr (b, found) ↦ rw found (refl, (b, refl))
]

check_from_warehouse-WarehouseKnown :
    (company : ℕ) (o : Option ℕ) (s : Store)
    → Post (λ _ t. (t ≡ s) × WarehouseKnown company o s) (check_from_warehouse company o s)
unfolding check_from_warehouse
check_from_warehouse-WarehouseKnown company none s = (refl, tt)
check_from_warehouse-WarehouseKnown company (some id) s =
    elim (Option-cases (find_warehouse company id s)) [
      | inl missing ↦ rw missing tt
      | inr (w, found) ↦ rw found (refl, (w, refl))
    ]

module _ (company : ℕ) (dto : NewAsn) where
  items-IsChecked :
      (s t : Store)
      → t ≡ s
      → (w : Warehouse) → find_warehouse company dto.to_warehouse s ≡ some w
      → (w.branch == dto.to_branch) ≡ true
      → BranchKnown company dto.from_branch s
      → WarehouseKnown company dto.from_warehouse s
      → Post
          (λ _ u. (u ≡ s) × IsChecked company dto s)
          (throw_if
            (ltb 0
              (length (missing_ids company (unique (map (λ (l : AsnLine). l.item) dto.lines)) t)))
            (bad_request invalid_item)
            t)
  items-IsChecked s t same w found branch from_branch from_warehouse =
      let ids = unique (map (λ (l : AsnLine). l.item) dto.lines) in
      rw same (elim (Bool-cases (ltb 0 (length (missing_ids company ids s)))) [
        | inl missing ↦ rw missing tt
        | inr none_missing ↦ rw none_missing (
          refl,
          record {
            target = w;
            target_found = found;
            from_branch_known = from_branch;
            from_warehouse_known = from_warehouse;
            in_branch = branch;
            active_items =
                items_of_lines (λ x. exists_by (is_active_item company x) s.items ≡ true) dto.lines
                  (All-unique (λ x. exists_by (is_active_item company x) s.items ≡ true)
                    (map (λ (l : AsnLine). l.item) dto.lines)
                    (All-map (λ x. contains x (found_ids company ids s) ≡ true)
                      (λ x. exists_by (is_active_item company x) s.items ≡ true)
                      (λ x h. found-exists company ids x s.items h) ids
                      (All-of_none (λ x. contains x (found_ids company ids s)) ids none_missing)));
          },
        )
      ])

  check_notice-IsChecked :
      (s : Store) → Post (λ _ t. (t ≡ s) × IsChecked company dto s) (check_notice company dto s)
  unfolding check_notice
  check_notice-IsChecked s = elim (Bool-cases (length dto.lines == 0)) [
    | inl empty ↦ rw empty tt
    | inr some_lines ↦ elim (Option-cases (find_branch company dto.to_branch s)) [
      | inl missing ↦ rw (some_lines, missing) tt
      | inr (b, b_found) ↦ elim (Option-cases (find_warehouse company dto.to_warehouse s)) [
        | inl missing ↦ rw (some_lines, b_found) (rw missing tt)
        | inr (w, found) ↦ elim (Bool-cases (w.branch == dto.to_branch)) [
          | inr other ↦ rw (some_lines, b_found) (rw (found, other) tt)
          | inl branch ↦
              rw (some_lines, b_found)
                (rw (found, branch)
                  (Post-bind (λ _ t. (t ≡ s) × BranchKnown company dto.from_branch s)
                    (λ _ t. (t ≡ s) × IsChecked company dto s)
                    (check_from_branch company dto.from_branch) _ s
                    (check_from_branch-BranchKnown company dto.from_branch s)
                    (λ _ t _ from.
                      Post-bind (λ _ u. (u ≡ t) × WarehouseKnown company dto.from_warehouse t)
                        (λ _ u. (u ≡ s) × IsChecked company dto s)
                        (check_from_warehouse company dto.from_warehouse) _ t
                        (check_from_warehouse-WarehouseKnown company dto.from_warehouse t)
                        (λ _ u _ from'.
                          items-IsChecked s u (from'.0 ∙ from.0) w found branch from.1
                            (subst (WarehouseKnown company dto.from_warehouse) from.0 from'.1)))))
        ]
      ]
    ]
  ]

-- What the creation of a notice leaves behind.
pub record Creates (company user : ℕ) (dto : NewAsn) (s : Store) (id : ℕ) (t : Store) : Type 0 where
  pub checked : IsChecked company dto s
  pub fresh : All (λ a. (a.id == id) ≡ false) s.asns
  pub notice : Asn
  pub added : t.asns ≡ notice ∷ s.asns
  pub pending_notice :
      (notice.id ≡ id)
      × (notice.company ≡ company)
      × (notice.created_by ≡ user)
      × (notice.lines ≡ dto.lines)
      × (is_pending_asn notice.status ≡ true)
  pub places :
      (notice.from_branch ≡ dto.from_branch)
      × (notice.from_warehouse ≡ dto.from_warehouse)
      × (notice.to_branch ≡ dto.to_branch)
      × (notice.to_warehouse ≡ dto.to_warehouse)
      × (notice.expected_date ≡ dto.expected_date)
  pub same_stocks : t.stocks ≡ s.stocks

-- A creation that does not throw adds one pending notice of the company and the user under a new
-- identifier, with the lines, the expected date and each of the four places of the request; a source
-- branch and a source warehouse that the request names are the company's, the requested target
-- warehouse is the company's and belongs to the requested target branch, every
-- line's item is an active item of the company, and the stock rows are as before.
pub create_asn-Creates :
    (e : Engine) (laws : IsEngine e) (company user : ℕ) (dto : NewAsn) (s : Store)
    → Post (λ id t. Creates company user dto s id t) (create_asn e company user dto s)
unfolding create_asn insert_asn
create_asn-Creates e laws company user dto s =
    Post-bind (λ _ t. (t ≡ s) × IsChecked company dto s) (λ id t. Creates company user dto s id t)
      (check_notice company dto) _ s (check_notice-IsChecked company dto s)
      (λ _ t _ h. record {
        checked = h.1;
        fresh = rw h.0 (laws.new_id-asns s);
        notice = record {
          id = e.new_id t;
          company = company;
          from_branch = dto.from_branch;
          from_warehouse = dto.from_warehouse;
          to_branch = dto.to_branch;
          to_warehouse = dto.to_warehouse;
          expected_date = dto.expected_date;
          status = AsnStatus.pending;
          created_by = user;
          lines = dto.lines;
        };
        added = rw h.0 refl;
        pending_notice = (refl, refl, refl, refl, refl);
        places = (refl, refl, refl, refl, refl);
        same_stocks = rw h.0 refl;
      })
