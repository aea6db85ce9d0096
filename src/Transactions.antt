-- ===== src/Transactions.antt =====
-- src/transactions/transaction.service.ts: the agency between a TRO and a TDC. The endpoints of
-- transaction.controller.ts call these methods with a body that has passed the validation.
pub mod Persistence
pub mod Schema
pub mod Messaging
pub mod Service
