-- ===== src/Schema/Rows.antt =====
-- The rows of the ledger's tables (prisma/schema.prisma) and the fields of a posting request
-- (src/transactions/dto/create-transaction.dto.ts and create-transaction-entry.dto.ts).
use cashfo_backend.Base.{ℕ, Bool, Option, List, ℤ, ◌==◌, ◌+◌}

pub data AccountType : Type 0 where
  asset liability equity income expense : AccountType

pub data AccountStatus : Type 0 where
  active archived : AccountStatus

-- Account.accountSubtype is a free text; the texts that the code names have a constructor.
pub data AccountSubtype : Type 0 where
  cash bank mfs savings receivable payable fixed_assets referral_bonus : AccountSubtype
  other : ℕ → AccountSubtype

pub data EntryType : Type 0 where
  debit credit : EntryType

pub data TransactionType : Type 0 where
  income expense transfer journal sale purchase payment : TransactionType

pub data TransactionStatus : Type 0 where
  posted voided : TransactionStatus

-- A text that the code only stores, kept as the template that made it.
pub data Text : Type 0 where
  written : ℕ → Text
  id_text : ℕ → Text
  reversal_of : Text → Text
  savings_contribution savings_withdrawal : ℕ → Option ℕ → Text

pub record Account : Type 0 where
  pub id : ℕ
  pub business_id : ℕ
  pub parent_id : Option ℕ
  pub name : ℕ
  pub account_type : AccountType
  pub account_subtype : Option AccountSubtype
  pub opening_balance : ℤ
  pub current_balance : ℤ
  pub is_system_account : Bool
  pub status : AccountStatus
  pub display_order : ℕ
  pub created_at : ℕ

-- An entry is stored with the transaction that it belongs to.
pub record Entry : Type 0 where
  pub account_id : ℕ
  pub entry_type : EntryType
  pub amount : ℤ
  pub category_id : Option ℕ
  pub note : Option ℕ

-- `transaction_date` and `due_date` are columns of a date alone: a value here and in a request stands
-- for such a day, at UTC midnight.
pub record Transaction : Type 0 where
  pub id : ℕ
  pub business_id : ℕ
  pub transaction_type : TransactionType
  pub transaction_date : ℕ
  pub reference_no : Option Text
  pub description : Option Text
  pub contact_id : Option ℕ
  pub due_date : Option ℕ
  pub applied_to_transaction_id : Option ℕ
  pub idempotency_key : Option ℕ
  pub created_by : ℕ
  pub created_at : ℕ
  pub status : TransactionStatus
  pub voided_at : Option ℕ
  pub voided_reason : Option ℕ
  pub reversal_of_id : Option ℕ
  pub entries : List Entry

pub data ContactType : Type 0 where
  customer supplier both relative other : ContactType

pub data ContactCategory : Type 0 where
  business loan : ContactCategory

pub record Contact : Type 0 where
  pub id : ℕ
  pub business_id : ℕ
  pub name : ℕ
  pub contact_type : ContactType
  pub category : ContactCategory
  pub opening_balance : ℤ

-- What other features keep of a posting: SavingsGoalEntry.transactionId and Asset's two columns.
pub record SavingsLink : Type 0 where
  pub transaction_id : Option ℕ

pub record AssetLink : Type 0 where
  pub purchase_transaction_id : Option ℕ
  pub sold_transaction_id : Option ℕ

pub record CreateTransaction : Type 0 where
  pub transaction_type : TransactionType
  pub transaction_date : ℕ
  pub description : Option Text
  pub reference_no : Option Text
  pub contact_id : Option ℕ
  pub due_date : Option ℕ
  pub applied_to_transaction_id : Option ℕ
  pub entries : List Entry
  pub idempotency_key : Option ℕ

pub record Db : Type 0 where
  pub accounts : List Account
  pub transactions : List Transaction
  pub contacts : List Contact
  pub savings_entries : List SavingsLink
  pub assets : List AssetLink

-- What a call gets from its surroundings: the id that the database draws for the new row, the
-- clock, and the user.
pub record Context : Type 0 where
  pub new_id : ℕ
  pub now : ℕ
  pub user_id : ℕ

-- Codes by which the enums are compared.
abbrev pub type_code : AccountType → ℕ
type_code AccountType.asset = 0
type_code AccountType.liability = 1
type_code AccountType.equity = 2
type_code AccountType.income = 3
type_code AccountType.expense = 4

abbrev pub same_type : AccountType → AccountType → Bool
same_type a b = type_code a == type_code b

abbrev pub subtype_code : AccountSubtype → ℕ
subtype_code AccountSubtype.cash = 0
subtype_code AccountSubtype.bank = 1
subtype_code AccountSubtype.mfs = 2
subtype_code AccountSubtype.savings = 3
subtype_code AccountSubtype.receivable = 4
subtype_code AccountSubtype.payable = 5
subtype_code AccountSubtype.fixed_assets = 6
subtype_code AccountSubtype.referral_bonus = 7
subtype_code (AccountSubtype.other n) = n + 8

abbrev pub same_entry_type : EntryType → EntryType → Bool
same_entry_type EntryType.debit e = elim e [
  | EntryType.debit ↦ Bool.true
  | EntryType.credit ↦ Bool.false
]
same_entry_type EntryType.credit e = elim e [
  | EntryType.debit ↦ Bool.false
  | EntryType.credit ↦ Bool.true
]

abbrev pub is_posted : TransactionStatus → Bool
is_posted TransactionStatus.posted = Bool.true
is_posted TransactionStatus.voided = Bool.false

abbrev pub is_archived : AccountStatus → Bool
is_archived AccountStatus.active = Bool.false
is_archived AccountStatus.archived = Bool.true

abbrev pub transaction_type_code : TransactionType → ℕ
transaction_type_code TransactionType.income = 0
transaction_type_code TransactionType.expense = 1
transaction_type_code TransactionType.transfer = 2
transaction_type_code TransactionType.journal = 3
transaction_type_code TransactionType.sale = 4
transaction_type_code TransactionType.purchase = 5
transaction_type_code TransactionType.payment = 6

abbrev pub same_transaction_type : TransactionType → TransactionType → Bool
same_transaction_type a b = transaction_type_code a == transaction_type_code b
