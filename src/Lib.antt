-- ===== src/Lib.antt =====
-- The money core of the cashfo backend: a double-entry ledger, the chart of accounts that it posts
-- to, the friendly entries that post through it, savings goals, the shared expenses of a group,
-- the shelves that books and skills share, what customers and suppliers owe and are owed, and the
-- payments of subscriptions.
--
-- Parts and how they interact. The ledger (src/transactions/transactions.service.ts) posts
-- transactions of debit and credit entries and voids them by posting a mirror; after each it
-- recalculates the cached balance of every account that it touched
-- (src/accounts/account-balance.service.ts). The chart of accounts
-- (src/accounts/accounts.service.ts) makes, moves, archives and removes accounts. The friendly
-- entries (src/quick-entries/quick-entries.service.ts) turn an income, an expense or a transfer
-- into two entries and call the ledger. Savings goals (src/savings-goals/savings-goals.service.ts)
-- post what is paid into a goal or out of it, and keep an entry for each. Receivables and payables
-- (src/receivables-payables/receivables-payables.service.ts) post sales and purchases on credit
-- and their payments, and read from the ledger what is still owed. Payments of subscriptions
-- (src/payments/payments.service.ts) have tables of their own. Group expenses
-- (src/group-expenses/group-expenses.service.ts) keep tables of their own, and split what a group
-- spent in a period equally.
--
-- Files. Base holds shared names, lists, tables with a unique id, integers and sums. Schema holds
-- the rows of prisma/schema.prisma that the ledger uses (Schema/Rows), database transactions as
-- steps with exceptions (Schema/Effect) and the queries (Schema/Tables). Ledger/Balance,
-- Ledger/Posting and Ledger/Voiding are the operations of the ledger: create_transaction is
-- createTransaction, void_transaction is voidTransaction, recalculate_balance is
-- recalculateBalance, and so on, word by word; Ledger/Settling, Deltas and Consistency are about
-- balances, Inversion about what a call did, Keys and Once about idempotency keys, Later and
-- Standing about what the rows become while other requests go through, Finality and Undo about
-- voids, and Invariant about all of it. Accounts/Defs, Changes and Pickers are the operations of
-- the chart of accounts, Accounts/Walk and Accounts/Tree the theory of its parents, and
-- Accounts/Moves, Accounts/Status and Accounts/Stranding the theorems. QuickEntries/Defs are the
-- friendly entries, Shifts, Effects and Spending what they do to the balances, and Pickable is
-- about the lists that feed them. Savings/Rows, Goals and Money are the savings goals,
-- Savings/Paying and Withdrawing what a call did, and Saved and Solvent the amounts saved.
-- Groups/Rows, Records, Split and Settlement are the group expenses, and Groups/Shares, Fair,
-- Balances, Links and Closing their theorems; Groups/Requests is any sequence of the requests of a
-- group. Shelves/Settle is settleShelf of src/common/shelf.ts, Shelves/Retry its compareAndSwap,
-- and Shelves/Laws their theorems. Ledger/Preserving composes the invariant along the steps of a
-- service. Statements/Defs is getLedger, Statements/Pages and Closing are about its pages and its
-- closing balance, Statements/Reconcile is reconcileWorkspace, and Rounds and Repairs are about
-- it; Statements/Summary is getAccountSummary, and InOut and Fallen are about it. Dues/Defs is
-- computeDirection, Dues/Requests the four requests of receivables and payables, Dues/Fifo the
-- loop that settles the oldest invoices first, Dues/Soundness the ledger's invariant, Outstanding,
-- Lookup, Paying and Lowering what a payment does to what is outstanding, and Applied, Totals and
-- Remaining how the figures of an invoice add up; Dues/Rounds is one round of that loop,
-- Dues/Aging is getAging, and Buckets and AgingTotals are about it. Payments/Rows and Defs are the
-- payments, Payments/World the racing requests as steps, Commits what each commit does, Orderly
-- the invariant, Racing, Refunding and Runs its proof, and Once the single refund. The Tests
-- modules run the code on small data.
--
-- How the code is read. An id or a text that is only compared is a number, and the number 0 is the
-- empty text, which the language takes for false. An amount is an integer of hundredths, since
-- every amount column has two decimals. The amounts of the ledger, of quick entries, of savings
-- and of dues are checked to have two decimals at most when they come in; those of a group
-- (contributions, expenses and month budgets, by IsNumberString alone) and of a refund are not,
-- and stand here as their column keeps them, rounded to hundredths; the one division, of a total
-- by the number of members, is a floor of hundredths, and the rounding of the decimal package to
-- 20 digits does not reach it for totals of 14 digits and up to 100,000 members. A time is in
-- milliseconds. A column of a date alone (transactionDate, dueDate and the dates of a group) keeps
-- the day of what it is given and no time of day, so a date in a request or a row stands for such
-- a day, a time at UTC midnight, and the model does not cut it. An entry is stored inside its
-- transaction and has no id of its own. A text that the code makes is kept as the template that
-- made it. New ids, the clock and the user come with a Context. A database transaction is a step
-- from a database to a value and a database, or an exception, in which case the database is as it
-- was. A race is a step whose first reads saw an older list of transactions, the argument `seen`;
-- row locks change no data. Where a service reads, checks and writes in separate queries outside a
-- database transaction, as the chart of accounts does and every request of a group but the
-- closing, a request is one step here all the same: two that interleave (two moves of accounts
-- that each pass the cycle check and together make a cycle) are not modelled. A payment of a
-- subscription is read before the database transaction that changes it, so the row that was read
-- is an argument, and a World keeps every row that was read. The order of ledger lines with equal
-- dates and times, which the database leaves open for each query, is an argument, `ties`. The
-- unique index on the idempotency key refuses a second row. The query of one row by its id gives
-- the first row with it; where a theorem needs ids to be unique it says so. The walk up the
-- parents has fuel for two steps more than there are accounts, and a walk comes to its end or to a
-- place that it has seen before that.
--
-- Not modelled: most queries that only list or filter, the web framework's decorators, sessions
-- and sign-in, administration, and the other features that post through the ledger (assets and
-- referral payouts), of which the ledger's guards read the links. The advisory locks of withLocks
-- change no data; a call that runs under one is one step.
pub mod Accounts
pub mod Base
pub mod Dues
pub mod Groups
pub mod Ledger
pub mod Payments
pub mod QuickEntries
pub mod Savings
pub mod Schema
pub mod Shelves
pub mod Statements
