-- ===== src/Db/Documents.antt =====
-- The rows of the documents by which stock moves in and between warehouses: transfers, stocktakings,
-- shipping notices, inbound uploads and return receipts (apps/api/prisma/schema.prisma).
use Prim.Native.String.{String}
use warehousehub.Base.{ℕ, Bool, ℤ, Option, List, true, false}
use warehousehub.Db.Rows.{StorageType}

pub data TransferStatus : Type 0 where
  pending confirmed cancelled : TransferStatus

abbrev pub is_pending : TransferStatus → Bool
is_pending TransferStatus.pending = true
is_pending _ = false

pub record TransferLine : Type 0 where
  pub lot : ℕ
  pub qty : ℤ

-- A transfer with its lines, which are written when it is created and never again.
pub record Transfer : Type 0 where
  pub id : ℕ
  pub company : ℕ
  pub from_warehouse : ℕ
  pub to_warehouse : ℕ
  pub status : TransferStatus
  pub memo : Option String
  pub requested_by : ℕ
  pub confirmed_by : Option ℕ
  pub confirmed_at : Option ℕ
  pub lines : List TransferLine

pub data StocktakingStatus : Type 0 where
  draft in_progress confirmed cancelled : StocktakingStatus

abbrev pub is_draft : StocktakingStatus → Bool
is_draft StocktakingStatus.draft = true
is_draft _ = false

abbrev pub is_in_progress : StocktakingStatus → Bool
is_in_progress StocktakingStatus.in_progress = true
is_in_progress _ = false

pub record Stocktaking : Type 0 where
  pub id : ℕ
  pub company : ℕ
  pub warehouse : ℕ
  pub status : StocktakingStatus
  pub memo : Option String
  pub created_by : ℕ
  pub confirmed_by : Option ℕ
  pub confirmed_at : Option ℕ

pub record CountLine : Type 0 where
  pub id : ℕ
  pub stocktaking : ℕ
  pub lot : ℕ
  pub system_qty : ℤ
  pub actual_qty : Option ℤ

pub data AsnStatus : Type 0 where
  pending shipped received cancelled : AsnStatus

abbrev pub is_pending_asn : AsnStatus → Bool
is_pending_asn AsnStatus.pending = true
is_pending_asn _ = false

pub record Branch : Type 0 where
  pub id : ℕ
  pub company : ℕ

pub record AsnLine : Type 0 where
  pub item : ℕ
  pub quantity : ℤ
  pub expiry : Option ℕ

-- An advance shipping notice with its lines, which are written when it is created and never again.
pub record Asn : Type 0 where
  pub id : ℕ
  pub company : ℕ
  pub from_branch : Option ℕ
  pub from_warehouse : Option ℕ
  pub to_branch : ℕ
  pub to_warehouse : ℕ
  pub expected_date : ℕ
  pub status : AsnStatus
  pub created_by : ℕ
  pub lines : List AsnLine

pub data UploadStatus : Type 0 where
  uploaded confirmed cancelled : UploadStatus

abbrev pub is_uploaded : UploadStatus → Bool
is_uploaded UploadStatus.uploaded = true
is_uploaded _ = false

pub record UploadRow : Type 0 where
  pub item_code : String
  pub item_name : String
  pub storage : StorageType
  pub quantity : ℤ
  pub expiry : Option ℕ
  pub unit_cost : Option ℤ
  pub is_valid : Bool
  pub error_message : Option String

-- An upload with its rows, which are written when it is created and never again.
pub record Upload : Type 0 where
  pub id : ℕ
  pub company : ℕ
  pub uploaded_by : ℕ
  pub file_name : String
  pub status : UploadStatus
  pub confirmed_at : Option ℕ
  pub rows : List UploadRow

pub data ReturnStatus : Type 0 where
  received decided completed cancelled : ReturnStatus

abbrev pub is_received : ReturnStatus → Bool
is_received ReturnStatus.received = true
is_received _ = false

abbrev pub is_decided : ReturnStatus → Bool
is_decided ReturnStatus.decided = true
is_decided _ = false

pub data ReturnDecision : Type 0 where
  restock discard : ReturnDecision

pub record Receipt : Type 0 where
  pub id : ℕ
  pub company : ℕ
  pub customer : Option ℕ
  pub order : Option ℕ
  pub received_at : ℕ
  pub status : ReturnStatus
  pub memo : Option String
  pub received_by : ℕ
  pub decided_by : Option ℕ
  pub decided_at : Option ℕ
  pub completed_by : Option ℕ
  pub completed_at : Option ℕ
  pub version : ℕ

pub record ReceiptLine : Type 0 where
  pub id : ℕ
  pub receipt : ℕ
  pub item : ℕ
  pub outbound_line : Option ℕ
  pub storage : StorageType
  pub expiry : Option ℕ
  pub qty : ℤ
  pub decision : Option ReturnDecision
  pub decided_by : Option ℕ
  pub decided_at : Option ℕ
  pub processed_by : Option ℕ
  pub processed_at : Option ℕ
  pub version : ℕ
