-- ===== src/Lib.antt =====
-- The booking core of the repository: the engines of packages/core/src, the data of
-- packages/contracts/src that they compute with, and the packages around them: the flow of questions
-- that leads to a selection (packages/workflow/src), the resources that slots share
-- (packages/resources/src), the choice of a payment provider and the mock providers
-- (packages/payments/src), webhooks (packages/events/src), billing (packages/billing/src), the
-- connections to providers and external calendars (packages/integrations/src), amounts as texts
-- (packages/i18n/src), the checkout's wizard (apps/checkout/src), and the copy of the availability
-- engine that the edge functions run (supabase/functions/_shared).
--
-- Contracts: money.ts, service.ts, pricing.ts, availability.ts, booking.ts and payment.ts of
--   packages/contracts/src, a record for each schema and a data type for each enumeration.
-- Pricing: `price` of packages/core/src/pricing.ts, cut into the loops that it runs in order
--   (`item_lines`, `addon_lines`, `question_effects`, `rental_effect`, `sum_lines`,
--   `apply_multipliers`, `finish`). A thrown PricingError is `err`. Numbers are whole; a product is
--   divided and rounded as doubles do, which is a parameter (`Doubles`) that is exact where the product
--   is a safe integer.
-- Availability: packages/core/src/availability.ts. Dates has the calendar and the date helpers,
--   Windows the windows of a day and the blackouts, Slots `computeSlots` with its loops. What
--   JavaScript's Date and Intl do with texts and time zones is a parameter (`Platform`).
-- Booking: packages/core/src/booking.ts. Engine has the state of `createBookingEngine` (the maps
--   `bookings`, `byKey`, `pendingByKey` and so on; records stand on a heap, since maps and callers
--   share them) and `applyTransition`, Create has `createBooking`, Confirm has `confirmFromPayment`.
--   An operation is a function from a state to a result and a state. The two operations that await
--   the payment provider are cut there; a run is a list of events, so that calls interleave as the
--   answers of the provider arrive. Pricing, availability, the clock, the id factory and what zod and
--   Date do are parameters (`Options`).
-- Routing: packages/payments/src/capability.ts and routing.ts, `selectProvider` with its filter, its
--   sort by `rank` and its reasons.
-- Merchant: packages/payments/src/contract.ts and mocks.ts, `makeProvider`: the variables of its
--   closure are the state, and each operation is a function to a fault or to a value and a state.
-- Billing: packages/billing/src, the catalog of plans, the operations on a subscription, the
--   entitlements, and `createMockBillingProvider` (Provider); a set is a list.
-- Resources: packages/resources/src, who holds units of a resource, and what a service requires.
-- Events: packages/events/src and packages/contracts/src/webhooks.ts. Webhooks has the matching of
--   subscriptions, Dispatch has `buildDelivery`, `dispatch` and `dispatchUntilSettled`, Verify
--   `verifySignature` on code units; HMAC, JSON, Date and Number are parameters (`Runtime`,
--   `Timestamps`, whose numbers are fractions over a power of two), and a provider is a function that
--   may reject.
-- I18n: packages/i18n/src/currency.ts, amounts and decimal texts, as lists of code units.
-- Workflow: packages/workflow/src. Conditions has `evaluate`, Engine `nextState`, Validate `validate`,
--   Effects what a flow adds to the selection that the pricing engine prices, Strict and Publication
--   the checks before a flow is published. A throw of the evaluator is a fault.
-- Connections: packages/integrations/src/connection.ts, the states of a connection and its changes.
-- Calendar: packages/integrations/src/calendar.ts, `mergeBusy` and the mock adapters of external
--   calendars. `Date.parse` is a parameter.
-- Checkout: the wizard of apps/checkout/src: its reducer (state/checkout.tsx), the request of its
--   payment step (steps/Payment.tsx) and its own check of a selection (state/validation.ts), which
--   stands before the one of Pricing. The key that a call would make is an argument of the reducer.
-- Edge: supabase/functions/_shared/availability.ts, the copy of the availability engine that the edge
--   functions run, with types of its own; the helpers that are the same code as in packages/core are
--   those of Availability.
-- Base: Boolean tests, lists, integers, decimals, maps and results that these share.
--
-- Loops over a grid of minutes or over days run on fuel that their ranges give: a minute more than
-- the window's end, since a step is at least a minute, and a day more than the days between. The
-- search of a booking reference, which the source does not bound, runs on the fuel `search_fuel`;
-- running out is a fault of its own. The ticks of
-- `dispatchUntilSettled` are a number that the source gives, one more than the ceiling of attempts.
--
-- Not modelled: refinements of the zod schemas, texts of error messages and issues, metadata of
-- payment intents, the texts that explain a routing, the bound on the size of a raw flow, the storage
-- of a checkout's session and the schemas that check its contact details, and the other packages and
-- apps: notifications, media, templates, OAuth and the clients, the HTTP handlers of apps/api and
-- supabase/functions, and the user interfaces.
pub mod Base
pub mod Contracts
pub mod Pricing
pub mod Availability
pub mod Routing
pub mod Merchant
pub mod Billing
pub mod Calendar
pub mod Checkout
pub mod Connections
pub mod Edge
pub mod Events
pub mod I18n
pub mod Workflow
pub mod Resources
pub mod Booking
