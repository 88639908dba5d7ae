-- ===== src/Tests.antt =====
-- Each theorem that has conditions or parameters, at a concrete input, and runs of the code.
mod Recipients
mod Queue
mod Deliveries
mod Limits
mod Sessions
mod Bot
mod Numbers
mod Program
